-- ===== src/State/BlockMoney.antt =====
-- `ApplyBlock` creates the reward of its height, and no other money.
use blu_gold.Base.{
  ℕ, ◌+◌, ◌≤◌, ◌≡◌, true, some, List, [], ◌∷◌, arith, if◌then◌else◌, IsU64, add_u64, inl, inr,
  Bool-cases, All, ltb, ◌==◌, ok, err, Result-cases,
}
use blu_gold.Crypto.Interface.{Primitives}
use blu_gold.Crypto.{Address}
use blu_gold.Chain.Params.{Params, reward_at}
use blu_gold.Chain.Tx.{Tx, TxError, is_coinbase, verify}
use blu_gold.Chain.Block.{Block}
use blu_gold.State.Monad.{
  State, Outcome, done, failed, panic, tx_invalid, fee_overflow, coinbase_invalid, or_raise, ◌>>◌,
}
use blu_gold.State.{apply_tx, apply_rest, pay_coinbase, apply_txs, apply_block}
use blu_gold.State.Total.{total}
use blu_gold.State.Transfer.{Transfers, Credits, credit-Credits, apply_tx-Transfers}

-- The uint64 fields of a transaction hold uint64 values.
pub record InRange (t : Tx) : Type 0 where
  pub amount_fits : IsU64 t.amount
  pub fee_fits : IsU64 t.fee

-- The fees of the transactions, exact.
abbrev pub fees : List Tx → ℕ
fees [] = 0
fees (t ∷ ts) = t.fee + fees ts

-- What the loop over the transactions has done, from a state with `money` and `sum` in fees.
abbrev Collects : ℕ → ℕ → List Tx → Outcome ℕ × State → Type 0
Collects money sum ts (done total_fees, s') =
    (total s' + fees ts ≡ money) × (total_fees ≡ sum + fees ts) × IsU64 total_fees
Collects money sum ts (failed e, s') = total s' ≤ money
Collects money sum ts (panic, s') = ⊥

-- What an action that makes `reward` of new money has done, from a state with `money`.
abbrev pub Mints : ℕ → ℕ → Outcome (Unit {0}) × State → Type 0
Mints money reward (done _, s') = total s' ≡ money + reward
Mints money reward (failed e, s') = total s' ≤ money
Mints money reward (panic, s') = ⊥

Collects-cons :
    (t : Tx) (ts : List Tx) (sum before behind : ℕ) (q : Outcome ℕ × State)
    → behind + t.fee ≡ before
    → add_u64 sum t.fee ≡ sum + t.fee
    → Collects behind (add_u64 sum t.fee) ts q
    → Collects before sum (t ∷ ts) q
Collects-cons t ts sum before behind (done n, s') e f (h, k, l) = (omega arith, omega arith, l)
Collects-cons t ts sum before behind (failed x, s') e f h = omega arith
Collects-cons t ts sum before behind (panic, s') e f h = h

Credits→Mints :
    (amt reward money : ℕ) (a : Address) (s : State) (q : Outcome (Unit {0}) × State)
    → total s + amt ≡ money + reward
    → Credits a amt s q
    → Mints money reward q
Credits→Mints amt reward money a s (done _, s') e (r, sum, each) = omega (arith, sum)
Credits→Mints amt reward money a s (failed x, s') e (r, sum, each) = absurd (cc r)
Credits→Mints amt reward money a s (panic, s') e (r, sum, each) = absurd (cc r)

module _ ⦃c : Primitives⦄ where
  -- The rest of one round, behind `ApplyTx`.
  unfoldable pub after_tx : Tx → List Tx → ℕ → Outcome (Unit {0}) × State → Outcome ℕ × State
  after_tx t ts sum (done _, s) =
      if ltb (add_u64 sum t.fee) t.fee
      then (failed fee_overflow, s)
      else apply_rest ts (add_u64 sum t.fee) s
  after_tx t ts sum (failed e, s) = (failed e, s)
  after_tx t ts sum (panic, s) = (panic, s)

  pub apply_rest_step :
      (t : Tx) (ts : List Tx) (sum : ℕ) (s : State)
      → verify t ≡ ok tt
      → apply_rest (t ∷ ts) sum s ≡ after_tx t ts sum (apply_tx t s)
  unfolding apply_rest after_tx
  apply_rest_step t ts sum s v = ground (arith, v)

  pub apply_rest_invalid :
      (t : Tx) (ts : List Tx) (sum : ℕ) (s : State) {e : TxError}
      → verify t ≡ err e
      → apply_rest (t ∷ ts) sum s ≡ (failed (tx_invalid e), s)
  unfolding apply_rest
  apply_rest_invalid t ts sum s v = ground (arith, v)

  after_tx-Collects :
      (t : Tx) (ts : List Tx) (sum : ℕ) (s : State) (q : Outcome (Unit {0}) × State)
      → InRange t
      → IsU64 sum
      → IsU64 (total s)
      → ((s' : State)
          → IsU64 (add_u64 sum t.fee)
          → IsU64 (total s')
          → Collects (total s') (add_u64 sum t.fee) ts (apply_rest ts (add_u64 sum t.fee) s'))
      → Transfers t s q
      → Collects (total s) sum (t ∷ ts) (after_tx t ts sum q)
  unfolding after_tx
  after_tx-Collects t ts sum s (done _, s') ht hs hm ih (a, money, each) =
      elim (Bool-cases (ltb (add_u64 sum t.fee) t.fee)) [
        | inl wraps ↦ rw wraps (omega (arith, money))
        | inr fits ↦ rw fits (
            Collects-cons t ts sum (total s) (total s') _ money (ground arith)
              (ih s' (omega arith) (omega (arith, money))))
      ]
  after_tx-Collects t ts sum s (failed e, s') ht hs hm ih (a, money, each) = omega arith
  after_tx-Collects t ts sum s (panic, s') ht hs hm ih h = h

  apply_rest-Collects :
      (ts : List Tx) (sum : ℕ) (s : State)
      → All InRange ts
      → IsU64 sum
      → IsU64 (total s)
      → Collects (total s) sum ts (apply_rest ts sum s)
  apply_rest-Collects [] sum s h hs ht = unfold apply_rest in (omega arith, omega arith, hs)
  apply_rest-Collects (t ∷ ts) sum s (ht, hts) hs hm = elim (Result-cases (verify t)) [
    | inr (e, v) ↦ rw (apply_rest_invalid t ts sum s v) (omega arith)
    | inl v ↦ rw (apply_rest_step t ts sum s v) (
        after_tx-Collects t ts sum s (apply_tx t s) ht hs hm
          (λ s' hs' hm'. apply_rest-Collects ts (add_u64 sum t.fee) s' hts hs' hm')
          (apply_tx-Transfers t s ht.amount_fits ht.fee_fits hm))
  ]

  pay_coinbase-Mints :
      (cb : Tx) (reward fee_sum money : ℕ) (s : State)
      → total s + fee_sum ≡ money
      → IsU64 (money + reward)
      → Mints money reward (pay_coinbase cb (some reward) fee_sum s)
  unfolding pay_coinbase
  pay_coinbase-Mints cb reward fee_sum money s e room =
      elim (Bool-cases (cb.amount == add_u64 reward fee_sum)) [
        | inr other ↦ rw other (omega arith)
        | inl exact ↦ rw exact (
            Credits→Mints cb.amount reward money cb.to s _ (ground (arith, exact))
              (credit-Credits cb.to cb.amount s (ground (arith, exact))))
      ]

  -- What follows the loop over the transactions.
  unfoldable pub after_rest : Tx → ℕ → Outcome ℕ × State → Outcome (Unit {0}) × State
  after_rest cb reward (done fee_sum, s) =
      (or_raise (verify cb) coinbase_invalid >> pay_coinbase cb (some reward) fee_sum) s
  after_rest cb reward (failed e, s) = (failed e, s)
  after_rest cb reward (panic, s) = (panic, s)

  pub apply_txs_step :
      (cb : Tx) (rest : List Tx) (height : ℕ) (p : Params) (s : State) {reward : ℕ}
      → is_coinbase cb ≡ true
      → reward_at p height ≡ some reward
      → apply_txs (cb ∷ rest) height p s ≡ after_rest cb reward (apply_rest rest 0 s)
  unfolding apply_txs after_rest
  apply_txs_step cb rest height p s is r = rw (is, r) (ground arith)

  after_rest-Mints :
      (cb : Tx) (rest : List Tx) (reward money : ℕ) (q : Outcome ℕ × State)
      → IsU64 (money + reward)
      → Collects money 0 rest q
      → Mints money reward (after_rest cb reward q)
  unfolding after_rest
  after_rest-Mints cb rest reward money (done n, s) room (e, k, l) =
      elim (Result-cases (verify cb)) [
        | inr (x, v) ↦ rw v (omega arith)
        | inl v ↦ rw v (pay_coinbase-Mints cb reward n money s (omega arith) room)
      ]
  after_rest-Mints cb rest reward money (failed e, s) room h = h
  after_rest-Mints cb rest reward money (panic, s) room h = h

  apply_txs-Mints :
      (txs : List Tx) (height : ℕ) (p : Params) (s : State) {reward : ℕ}
      → reward_at p height ≡ some reward
      → All InRange txs
      → IsU64 (total s + reward)
      → Mints (total s) reward (apply_txs txs height p s)
  apply_txs-Mints [] height p s r h room = unfold apply_txs in omega arith
  apply_txs-Mints (cb ∷ rest) height p s {reward} r (hcb, h) room =
      elim (Bool-cases (is_coinbase cb)) [
        | inr other ↦ unfold apply_txs in rw other (omega arith)
        | inl is ↦ rw (apply_txs_step cb rest height p s is r) (
            after_rest-Mints cb rest reward (total s) _ room
              (apply_rest-Collects rest 0 s h (omega arith) (omega arith)))
      ]

  -- Where the money and the reward of the height fit 64 bits, and the transactions hold uint64
  -- values: `ApplyBlock` never panics; where it ends, the money has grown by exactly the
  -- reward; where it fails, no money has been made.
  pub apply_block-Mints :
      (b : Block) (p : Params) (s : State) {reward : ℕ}
      → reward_at p b.height ≡ some reward
      → All InRange b.txs
      → IsU64 (total s + reward)
      → Mints (total s) reward (apply_block b p s)
  unfolding apply_block
  apply_block-Mints b p s r h room = apply_txs-Mints b.txs b.height p s r h room
