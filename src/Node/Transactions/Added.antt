-- ===== src/Node/Transactions/Added.antt =====
-- `AddTx` keeps the mempool and the pending state together.
use blu_gold.Base.{
  ◌≡◌, refl, sym, Bool, true, false, ◌⊎◌, inl, inr, Bool-cases, arith, if◌then◌else◌, IsU64, Bytes,
  Result, ok, err, leb, ltb, length, not, ◌==◌, add_u64, Result-cases,
}
use blu_gold.Base.Dict.{contains}
use blu_gold.Crypto.Interface.{Primitives}
use blu_gold.Chain.Tx.{Tx, tx_hash, verify}
use blu_gold.State.Monad.{State, Outcome, done, failed, panic, bad_nonce, insufficient_funds}
use blu_gold.State.{account, apply_tx, validate_tx}
use blu_gold.State.Total.{total}
use blu_gold.State.Transfer.{
  Transfers, touch, get_lem, account-touch, total-touch, apply_tx-Transfers,
}
use blu_gold.State.Matching.{Matches}
use blu_gold.State.BlockMoney.{InRange}
use blu_gold.Node.Data.{Node, NodeError, mempool_full, max_mempool}
use blu_gold.Node.Pool.Coherent.{
  Coherent, Applies, Applies-trans, Applies-snoc, pooled-snoc, listed, pool_of,
}
use blu_gold.Node.Transactions.{pending_state, add_applied, add_validated, add_tx}

touch_match : (t : Tx) (s : State) → Matches s (touch t.from s)
touch_match t s = (sym (total-touch t.from s), λ a. sym (account-touch t.from a s))

module _ ⦃c : Primitives⦄ where
  -- `ValidateTx` changes no account, and does not panic.
  abbrev Validates : State → Outcome (Unit {0}) × State → Type 0
  Validates s (done _, s') = Matches s s'
  Validates s (failed e, s') = Matches s s'
  Validates s (panic, s') = ⊥

  -- The two tests behind `get`.
  after_get-Validates :
      (t : Tx) (s : State) (late short : Bool)
      → Validates s (
          if late
          then (failed bad_nonce, touch t.from s)
          else if short
          then (failed insufficient_funds, touch t.from s)
          else (done tt, touch t.from s))
  after_get-Validates t s true short = touch_match t s
  after_get-Validates t s false true = touch_match t s
  after_get-Validates t s false false = touch_match t s

  validate_tx-Validates : (t : Tx) (s : State) → Validates s (validate_tx t s)
  validate_tx-Validates t s = elim (Result-cases (verify t)) [
    | inr (e, v) ↦ unfold validate_tx in rw v (refl, λ a. refl)
    | inl v ↦ rw (checked v) (after_get-Validates t s _ _)
  ]
    where
      checked :
          verify t ≡ ok tt
          → validate_tx t s ≡ (
              if not (t.nonce == (account t.from s).nonce)
              then (failed bad_nonce, touch t.from s)
              else if ltb (account t.from s).balance (add_u64 t.amount t.fee)
              then (failed insufficient_funds, touch t.from s)
              else (done tt, touch t.from s))
      checked v = unfold validate_tx in ground (arith, v, get_lem t.from s)

  -- What a call has made of a node that was coherent.
  abbrev pub StaysCoherent : Result NodeError (Unit {0}) × Node → Type 0
  StaysCoherent (ok _, m) = Coherent m
  StaysCoherent (err e, m) = (e ≡ mempool_full) ⊎ Coherent m

  module _ (t : Tx) (except_peer : Bytes) (n : Node) (ht : InRange t)
      (new : listed (tx_hash t) n.mempool_order ≡ false) (clean : n.pending_dirty ≡ false) where
    applied-Coherent :
        (ps : State) (q : Outcome (Unit {0}) × State)
        → apply_tx t ps ≡ q
        → Transfers t ps q
        → Applies (pool_of n) n.state ps
        → IsU64 (total ps)
        → StaysCoherent (add_applied t except_peer q n)
    unfolding add_applied
    applied-Coherent ps (panic, s) e bad runs fits = absurd bad
    applied-Coherent ps (failed x, s) e (no_fit, money, each) runs fits = inr (
      clean,
      (
        s,
        refl,
        (
          Applies-trans (pool_of n) n.state ps s runs (sym money, λ a. sym (each a)),
          omega (arith, money),
        ),
      ),
    )
    applied-Coherent ps (done _, s) e (a, money, each) runs fits =
        elim (Bool-cases (leb max_mempool (length n.mempool_tx))) [
          | inl full ↦ rw full (inl refl)
          | inr room ↦ rw room (
              let runs_on =
                rw (sym (pooled-snoc (tx_hash t) t n.mempool_tx n.mempool_order new)) at
                  (Applies-snoc (pool_of n) (tx_hash t) t n.state ps s ht fits runs e) in
              elim (Bool-cases n.networked) [
                | inl on ↦ rw on (refl, (s, refl, (runs_on, omega (arith, money))))
                | inr off ↦ rw off (refl, (s, refl, (runs_on, omega (arith, money))))
              ])
        ]

    validated-Coherent :
        (ps : State) (q : Outcome (Unit {0}) × State)
        → Validates ps q
        → Applies (pool_of n) n.state ps
        → IsU64 (total ps)
        → StaysCoherent (add_validated t except_peer q n)
    unfolding add_validated
    validated-Coherent ps (panic, s) bad runs fits = absurd bad
    validated-Coherent ps (failed x, s) m runs fits =
        inr (clean, (s, refl, (Applies-trans (pool_of n) n.state ps s runs m, omega (arith, m.0))))
    validated-Coherent ps (done _, s) m runs fits =
        applied-Coherent s (apply_tx t s) refl
          (apply_tx-Transfers t s ht.amount_fits ht.fee_fits (omega (arith, m.0)))
          (Applies-trans (pool_of n) n.state ps s runs m) (omega (arith, m.0))

  -- `AddTx` of a transaction with uint64 fields whose hash the mempool does not list, at a node
  -- whose mempool and pending state fit together: they fit together afterwards, whether the
  -- transaction is taken or refused, except where the mempool is full.
  pub add_tx-StaysCoherent :
      (t : Tx) (except_peer : Bytes) (n : Node)
      → InRange t
      → listed (tx_hash t) n.mempool_order ≡ false
      → Coherent n
      → StaysCoherent (add_tx t except_peer n)
  add_tx-StaysCoherent t except_peer n ht new (clean, (ps, has, (runs, fits))) =
      elim (Bool-cases (contains (tx_hash t) n.seen_tx)) [
        | inl seen ↦ unfold add_tx in rw seen (clean, (ps, has, (runs, fits)))
        | inr unseen ↦ rw (unseen_add unseen) (
            validated-Coherent t except_peer n ht new clean ps (validate_tx t ps)
              (validate_tx-Validates t ps) runs fits)
      ]
    where
      unseen_add :
          contains (tx_hash t) n.seen_tx ≡ false
          → add_tx t except_peer n ≡ add_validated t except_peer (validate_tx t ps) n
      unseen_add unseen = unfold add_tx pending_state in ground (arith, unseen, clean, has)
