-- ===== src/Node/Transactions/Full.antt =====
-- What a full mempool does to the pending state.
use blu_gold.Base.{
  ◌≤◌, ◌≡◌, ◌≢◌, refl, ap, false, some, arith, length, IsU64, Bytes, ok, err, Result-cases, inl,
  inr,
}
use blu_gold.Base.Dict.{contains}
use blu_gold.Crypto.Interface.{Primitives}
use blu_gold.Chain.Tx.{Tx, tx_hash, verify}
use blu_gold.State.Monad.{State, Outcome, done, failed, panic, bad_nonce}
use blu_gold.State.{account, apply_tx, validate_tx}
use blu_gold.State.Total.{total}
use blu_gold.State.Transfer.{Transfers, touch, get_lem, total-touch, apply_tx-Transfers}
use blu_gold.State.Once.{moved-nonce}
use blu_gold.Node.Data.{Node, mempool_full, tx_rejected, max_mempool}
use blu_gold.Node.Transactions.{pending_state, add_applied, add_validated, add_tx}

split : (q : Outcome (Unit {0}) × State) → q.0 ≡ done tt → q ≡ (done tt, q.1)
split (done tt, s) e = refl
split (failed x, s) e = absurd (cc e)
split (panic, s) e = absurd (cc e)

module _ ⦃c : Primitives⦄ where
  validated_verify : (t : Tx) (s : State) → (validate_tx t s).0 ≡ done tt → verify t ≡ ok tt
  unfolding validate_tx
  validated_verify t s e = elim (Result-cases (verify t)) [
    | inl v ↦ v
    | inr (x, v) ↦ absurd (cc (rw v at e))
  ]

  validate_wrong_nonce :
      (t : Tx) (s : State)
      → verify t ≡ ok tt
      → t.nonce ≢ (account t.from s).nonce
      → validate_tx t s ≡ (failed bad_nonce, touch t.from s)
  unfolding validate_tx
  validate_wrong_nonce t s v ne = rw v (ground (arith, get_lem t.from s))

  next_nonce_differs :
      (t : Tx) (s : State) (q : Outcome (Unit {0}) × State)
      → IsU64 t.nonce
      → Transfers t s q
      → q.0 ≡ done tt
      → t.nonce ≢ (account t.from q.1).nonce
  next_nonce_differs t s (done _, s') hn (a, money, each) e =
      λ q. omega (arith, q, a.in_order, ap (λ v. v.nonce) (each t.from), moved-nonce t s)
  next_nonce_differs t s (failed x, s') hn h e = absurd (cc e)
  next_nonce_differs t s (panic, s') hn h e = absurd h

  validated_state :
      (t : Tx) (s : State)
      → (validate_tx t s).0 ≡ done tt
      → validate_tx t s ≡ (done tt, touch t.from s)
  unfolding validate_tx
  validated_state t s e = ground (arith, e, validated_verify t s e, get_lem t.from s)

  -- A node whose pending state `ps` is up to date.
  module _ (t : Tx) (except_peer : Bytes) (n : Node) (ps : State)
      (unseen : contains (tx_hash t) n.seen_tx ≡ false) (clean : n.pending_dirty ≡ false)
      (pending : n.pending ≡ some ps) (valid : (validate_tx t ps).0 ≡ done tt)
      (applies : (apply_tx t (touch t.from ps)).0 ≡ done tt)
      (full : max_mempool ≤ length n.mempool_tx) where
    -- The pending state with the transaction applied.
    abbrev after : State
    after = (apply_tx t (touch t.from ps)).1

    add_tx_full : add_tx t except_peer n ≡ (err mempool_full, record n { pending = some after })
    unfolding add_tx pending_state add_validated add_applied
    add_tx_full =
        ground (arith, validated_state t ps valid, split (apply_tx t (touch t.from ps)) applies)

    add_tx_late :
        t.nonce ≢ (account t.from after).nonce
        → (add_tx t except_peer (record n { pending = some after })).0 ≡ err (tx_rejected bad_nonce)
    unfolding add_tx pending_state add_validated
    add_tx_late ne = ground (arith, validate_wrong_nonce t after (validated_verify t ps valid) ne)

  -- A transaction with uint64 fields that has not been seen, that is valid at an up to date pending
  -- state with money that fits 64 bits, and that applies there, is refused by a full mempool. The
  -- pending state keeps it all the same: sent once more, it is refused with `bad_nonce`.
  pub add_tx_full_twice :
      (t : Tx) (except_peer : Bytes) (n : Node) (ps : State)
      → contains (tx_hash t) n.seen_tx ≡ false
      → n.pending_dirty ≡ false
      → n.pending ≡ some ps
      → (validate_tx t ps).0 ≡ done tt
      → (apply_tx t (validate_tx t ps).1).0 ≡ done tt
      → max_mempool ≤ length n.mempool_tx
      → IsU64 t.amount
      → IsU64 t.fee
      → IsU64 t.nonce
      → IsU64 (total ps)
      → ((add_tx t except_peer n).0 ≡ err mempool_full)
        × ((add_tx t except_peer (add_tx t except_peer n).1).0 ≡ err (tx_rejected bad_nonce))
  add_tx_full_twice t except_peer n ps unseen clean pending valid applies full ha hf hn hs =
      let fits = rw (validated_state t ps valid) at applies in
      rw (add_tx_full t except_peer n ps unseen clean pending valid fits full) (
        refl,
        add_tx_late t except_peer n ps unseen clean pending valid fits full (
            next_nonce_differs t (touch t.from ps) _ hn
              (apply_tx-Transfers t (touch t.from ps) ha hf (omega (arith, total-touch t.from ps)))
              fits),
      )
