-- ===== src/State/Once.antt =====
-- The nonce of an account keeps a transaction from being applied twice.
use blu_gold.Base.{◌≡◌, ◌≢◌, ap, false, arith, bytes_eq_refl, bytes_eq_sym, IsU64, add_u64}
use blu_gold.Chain.Tx.{Tx, is_coinbase}
use blu_gold.State.Monad.{State, Outcome, done, failed, panic, bad_nonce}
use blu_gold.State.{account, apply_tx}
use blu_gold.State.Total.{total}
use blu_gold.State.Transfer.{Transfers, moved, touch, get_lem, apply_tx-Transfers}

-- Behind the transaction the sender has the next nonce, also where it paid itself.
pub moved-nonce :
    (t : Tx) (s : State) → (moved t s t.from).nonce ≡ add_u64 (account t.from s).nonce 1
moved-nonce t s = ground (arith, bytes_eq_refl t.from, bytes_eq_sym t.to t.from)

wrong_nonce :
    (t : Tx) (s : State)
    → is_coinbase t ≡ false
    → t.nonce ≢ (account t.from s).nonce
    → apply_tx t s ≡ (failed bad_nonce, touch t.from s)
unfolding apply_tx
wrong_nonce t s nc ne = ground (arith, get_lem t.from s)

again :
    (t : Tx) (s : State) (q : Outcome (Unit {0}) × State)
    → IsU64 t.nonce
    → Transfers t s q
    → q.0 ≡ done tt
    → (apply_tx t q.1).0 ≡ failed bad_nonce
again t s (done _, s') hn (a, sum, each) e =
    ap (λ (r : Outcome (Unit {0}) × State). r.0)
      (wrong_nonce t s' a.transfer
        (λ q. omega (arith, q, a.in_order, ap (λ v. v.nonce) (each t.from), moved-nonce t s)))
again t s (failed x, s') hn h e = absurd (cc e)
again t s (panic, s') hn h e = absurd h

-- A transaction with uint64 fields that was applied, at a state whose money fits 64 bits, is
-- refused with `bad_nonce` when it is applied once more to the state that it left.
pub apply_tx_once :
    (t : Tx) (s : State)
    → IsU64 t.amount
    → IsU64 t.fee
    → IsU64 t.nonce
    → IsU64 (total s)
    → (apply_tx t s).0 ≡ done tt
    → (apply_tx t (apply_tx t s).1).0 ≡ failed bad_nonce
apply_tx_once t s ha hf hn hs e = again t s (apply_tx t s) hn (apply_tx-Transfers t s ha hf hs) e
