-- ===== src/State/Twin.antt =====
-- The state refuses a block that lists its last transaction twice.
use blu_gold.Base.{
  ℕ, ◌≡◌, refl, ap, [], ◌∷◌, ◌++◌, List, All, arith, IsU64, add_u64, ltb, ok, Result-cases, inl,
  inr, Bool-cases, some,
}
use blu_gold.Crypto.Interface.{Primitives}
use blu_gold.Chain.Params.{Params, reward_at}
use blu_gold.Chain.Tx.{Tx, verify, is_coinbase}
use blu_gold.Chain.Block.{Block}
use blu_gold.Chain.Block.Twin.{with_txs}
use blu_gold.State.Monad.{State, Outcome, done, failed, panic, bad_nonce}
use blu_gold.State.{apply_tx, apply_rest, apply_txs, apply_block}
use blu_gold.State.Total.{total}
use blu_gold.State.Transfer.{Transfers, apply_tx-Transfers}
use blu_gold.State.Once.{apply_tx_once}
use blu_gold.State.BlockMoney.{
  InRange, after_tx, apply_rest_step, apply_rest_invalid, after_rest, apply_txs_step,
}

module _ ⦃c : Primitives⦄ where
  -- Behind a transaction that was applied, the same one is refused.
  refused_again :
      (x : Tx) (sum : ℕ) (s : State)
      → verify x ≡ ok tt
      → (apply_tx x s).0 ≡ failed bad_nonce
      → (apply_rest (x ∷ []) sum s).0 ≡ failed bad_nonce
  refused_again x sum s v r = rw (apply_rest_step x [] sum s v) (go (apply_tx x s) r)
    where
      go :
          (q : Outcome (Unit {0}) × State)
          → q.0 ≡ failed bad_nonce
          → (after_tx x [] sum q).0 ≡ failed bad_nonce
      go (done _, s') e = absurd (cc e)
      go (failed e, s') q = unfold after_tx in cc q
      go (panic, s') e = absurd (cc e)

  -- The step of the induction: where the loop with one `x` ends behind `t`, the loop with two
  -- is refused.
  step_refused :
      (t : Tx) (once twice : List Tx) (sum n : ℕ) (s : State) (q : Outcome (Unit {0}) × State)
      → IsU64 (total s)
      → Transfers t s q
      → ((s' : State)
          → q ≡ (done tt, s')
          → IsU64 (total s')
          → (apply_rest once (add_u64 sum t.fee) s').0 ≡ done n
          → (apply_rest twice (add_u64 sum t.fee) s').0 ≡ failed bad_nonce)
      → (after_tx t once sum q).0 ≡ done n
      → (after_tx t twice sum q).0 ≡ failed bad_nonce
  unfolding after_tx
  step_refused t once twice sum n s (done tt, s') hs (a, money, each) ih e =
      elim (Bool-cases (ltb (add_u64 sum t.fee) t.fee)) [
        | inl wraps ↦ absurd (cc (rw wraps at e))
        | inr fits ↦ rw fits (ih s' refl (omega (arith, money)) (rw fits at e))
      ]
  step_refused t once twice sum n s (failed x, s') hs tr ih e = absurd (cc e)
  step_refused t once twice sum n s (panic, s') hs tr ih e = absurd (cc e)

  apply_rest-twin :
      (ts : List Tx) (x : Tx) (sum n : ℕ) (s : State)
      → All InRange ts
      → InRange x
      → IsU64 x.nonce
      → IsU64 (total s)
      → (apply_rest (ts ++ (x ∷ [])) sum s).0 ≡ done n
      → (apply_rest (ts ++ (x ∷ x ∷ [])) sum s).0 ≡ failed bad_nonce
  apply_rest-twin [] x sum n s h hx hn hs e = elim (Result-cases (verify x)) [
    | inr (y, v) ↦ absurd (cc (rw (apply_rest_invalid x [] sum s v) at e))
    | inl v ↦ rw (apply_rest_step x (x ∷ []) sum s v) (
        step_refused x [] (x ∷ []) sum n s (apply_tx x s) hs
          (apply_tx-Transfers x s hx.amount_fits hx.fee_fits hs)
          (λ s' q hs' _. refused_again x (add_u64 sum x.fee) s' v (once_more s' q))
          (rw (apply_rest_step x [] sum s v) at e))
  ]
    where
      once_more : (s' : State) → apply_tx x s ≡ (done tt, s') → (apply_tx x s').0 ≡ failed bad_nonce
      once_more s' q = rw q at (
          apply_tx_once x s hx.amount_fits hx.fee_fits hn hs
            (ap (λ (r : Outcome (Unit {0}) × State). r.0) q))
  apply_rest-twin (t ∷ ts) x sum n s (ht, h) hx hn hs e = elim (Result-cases (verify t)) [
    | inr (y, v) ↦ absurd (cc (rw (apply_rest_invalid t (ts ++ (x ∷ [])) sum s v) at e))
    | inl v ↦ rw (apply_rest_step t (ts ++ (x ∷ x ∷ [])) sum s v) (
        step_refused t (ts ++ (x ∷ [])) (ts ++ (x ∷ x ∷ [])) sum n s (apply_tx t s) hs
          (apply_tx-Transfers t s ht.amount_fits ht.fee_fits hs)
          (λ s' _ hs' e'. apply_rest-twin ts x (add_u64 sum t.fee) n s' h hx hn hs' e')
          (rw (apply_rest_step t (ts ++ (x ∷ [])) sum s v) at e))
  ]

  -- If what follows the loop ends, the loop has ended.
  loop_ended :
      (cb : Tx) (reward : ℕ) (q : Outcome ℕ × State)
      → (after_rest cb reward q).0 ≡ done tt
      → (n : ℕ) × (q.0 ≡ done n)
  loop_ended cb reward (done n, s) e = (n, refl)
  loop_ended cb reward (failed x, s) e = absurd (unfold after_rest in cc e)
  loop_ended cb reward (panic, s) e = absurd (unfold after_rest in cc e)

  passes_failure :
      (cb : Tx) (reward : ℕ) (q : Outcome ℕ × State)
      → q.0 ≡ failed bad_nonce
      → (after_rest cb reward q).0 ≡ failed bad_nonce
  passes_failure cb reward (done n, s) e = absurd (cc e)
  passes_failure cb reward (failed x, s) e = unfold after_rest in cc e
  passes_failure cb reward (panic, s) e = absurd (cc e)

  -- If a state takes a block that has a transaction behind the coinbase, it refuses the block that
  -- lists the last transaction once more, with `bad_nonce`. The transactions hold uint64 values,
  -- and the money fits 64 bits.
  pub apply_block-twin :
      (p : Params) (b : Block) (s : State) {reward : ℕ} (cb : Tx) (ts : List Tx) (x : Tx)
      → reward_at p b.height ≡ some reward
      → All InRange ts
      → InRange x
      → IsU64 x.nonce
      → IsU64 (total s)
      → (apply_block (with_txs b (cb ∷ (ts ++ (x ∷ [])))) p s).0 ≡ done tt
      → (apply_block (with_txs b (cb ∷ (ts ++ (x ∷ x ∷ [])))) p s).0 ≡ failed bad_nonce
  unfolding apply_block
  apply_block-twin p b s {reward} cb ts x r h hx hn hs e = elim (Bool-cases (is_coinbase cb)) [
    | inr other ↦ absurd (unfold apply_txs in cc (rw other at e))
    | inl is ↦
        let (n, ended) =
          loop_ended cb reward (apply_rest (ts ++ (x ∷ [])) 0 s)
            (rw (apply_txs_step cb (ts ++ (x ∷ [])) b.height p s is r) at e) in
        rw (apply_txs_step cb (ts ++ (x ∷ x ∷ [])) b.height p s is r)
          (passes_failure cb reward _ (apply_rest-twin ts x 0 n s h hx hn hs ended))
  ]
