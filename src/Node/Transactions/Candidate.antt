-- ===== src/Node/Transactions/Candidate.antt =====
-- A candidate of `BuildCandidate` against `ApplyBlock`.
use blu_gold.Base.{
  ℕ, ◌+◌, ◌≡◌, refl, sym, ap, ◌∙◌, subst, true, some, List, All, arith, if◌then◌else◌, Bytes,
  bytes_eq, ok, err, IsU64, add_u64, ◌==◌, Option, ltb, take, length-take, suc, ◌≤◌, Bool-cases,
  inl, inr, length,
}
use blu_gold.Base.Int.{ℤ, ◌-ℤ◌, pos}
use blu_gold.Crypto.Interface.{Primitives}
use blu_gold.Crypto.{Address, is_valid}
use blu_gold.Crypto.AddressLaws.{is_valid-not_coinbase}
use blu_gold.Chain.Params.{reward_at}
use blu_gold.Chain.Tx.{Tx, empty_coinbase, is_coinbase, verify, verify_coinbase}
use blu_gold.Chain.Block.{Block}
use blu_gold.State.Monad.{State, Outcome, done, failed, coinbase_invalid}
use blu_gold.State.{apply_block, pay_coinbase}
use blu_gold.State.Total.{total}
use blu_gold.State.Transfer.{credit-Credits}
use blu_gold.State.BlockMoney.{fees, after_rest, apply_txs_step}
use blu_gold.Node.Data.{Entry, Node}
use blu_gold.Node.Transactions.{
  below_limit, cut_to, built, pays_more, candidate_txs, candidate_coinbase, candidate_time,
  candidate_on, build_candidate,
}
use blu_gold.Node.Transactions.Picked.{
  Sound, Runs, sort_stable-All, pooled-All, pick_all-Runs, take-Runs, apply_rest-Runs,
  fee_total-fees,
}

below_limit_pos : (k : ℕ) → below_limit (pos (suc k)) ≡ pos k
unfolding below_limit ◌-ℤ◌
below_limit_pos k = ground arith

module _ ⦃c : Primitives⦄ where
  -- Some transactions, no more than `k`, that run.
  abbrev pub Takes : ℕ → Option (List Tx) → State → Type 0
  Takes k o s = (txs : List Tx) × (o ≡ some txs) × Runs txs s × (length txs ≤ k)

  cut_to-Takes : (k : ℕ) (ts : List Tx) (s : State) → Runs ts s → Takes k (cut_to (pos k) ts) s
  unfolding cut_to
  cut_to-Takes k ts s h = elim (Bool-cases (ltb k (length ts))) [
    | inl more ↦
        (take k ts, ground (arith, more), take-Runs k ts s h, omega (arith, length-take k ts))
    | inr fits ↦ (ts, ground (arith, fits), h, ground (arith, fits))
  ]

  -- The transactions of the mempool pass `Verify`, with uint64 fields.
  abbrev pub SoundPool : Node → Type 0
  SoundPool n = All (λ (p : Bytes × Tx). Sound p.1) n.mempool_tx

  -- The loop of `BuildCandidate` does not panic, nor does the slice for a limit of one or more.
  pub candidate_txs-Takes :
      (n : Node) (k : ℕ)
      → SoundPool n
      → IsU64 (total n.state)
      → n.params.max_txs_per_block ≡ pos (suc k)
      → Takes k (candidate_txs n) n.state
  unfolding candidate_txs
  candidate_txs-Takes n k h hs limit =
      let (txs, picked, runs) =
        pick_all-Runs _ n.state n.state
          (sort_stable-All Sound pays_more _ (pooled-All Sound n.mempool_tx n.mempool_order h)) hs
          (refl, λ a. refl) in
      let cut : candidate_txs n ≡ cut_to (pos k) txs =
        rw (candidate_txs, picked)
          (ap (λ l. cut_to l txs) (ap below_limit limit ∙ below_limit_pos k)) in
      subst (λ o. Takes k o n.state) (sym cut) (cut_to-Takes k txs n.state runs)

  verify-candidate_coinbase :
      (miner : Address) (now : ℤ) (height amount : ℕ)
      → is_valid miner ≡ true
      → verify (candidate_coinbase miner now height amount)
        ≡ (if amount == 0 then err empty_coinbase else ok tt)
  unfolding verify verify_coinbase is_coinbase bytes_eq
  verify-candidate_coinbase miner now height amount v =
      ground (arith, v, is_valid-not_coinbase miner v)

  -- What `ApplyBlock` says of a coinbase that pays `reward` and the fees.
  abbrev pub Verdict : ℕ → Outcome (Unit {0})
  Verdict amount = if amount == 0 then failed (coinbase_invalid empty_coinbase) else done tt

  after_rest-Verdict :
      (miner : Address) (now : ℤ) (height reward fee_sum : ℕ) (s : State)
      → is_valid miner ≡ true
      → IsU64 (total s + (reward + fee_sum))
      → (after_rest
          (candidate_coinbase miner now height (add_u64 reward fee_sum))
          reward
          (done fee_sum, s)).0
        ≡ Verdict (reward + fee_sum)
  unfolding after_rest pay_coinbase
  after_rest-Verdict miner now height reward fee_sum s v room =
      let exact : add_u64 reward fee_sum ≡ reward + fee_sum = ground arith in
      ground (
        arith,
        exact,
        verify-candidate_coinbase miner now height (reward + fee_sum) v,
        (credit-Credits miner (reward + fee_sum) s room).0,
      )

  pub candidate_on-Verdict :
      (miner : Address) (now : ℤ) (tip : Entry) (reward : ℕ) (txs : List Tx) (n : Node)
      → reward_at n.params (add_u64 tip.block.height 1) ≡ some reward
      → is_valid miner ≡ true
      → Runs txs n.state
      → IsU64 (total n.state + reward)
      → (apply_block (candidate_on miner now tip reward txs n) n.params n.state).0
        ≡ Verdict (reward + fees txs)
  unfolding apply_block candidate_on
  candidate_on-Verdict miner now tip reward txs n r v runs room =
      let (s', run, money) = apply_rest-Runs txs 0 n.state runs (omega arith) in
      let zero_sum : 0 + fees txs ≡ fees txs = omega arith in
      let sum = fee_total-fees txs 0 (omega (arith, money)) in
      rw
        (
          sum,
          zero_sum,
          apply_txs_step
              (candidate_coinbase miner (candidate_time now tip) (add_u64 tip.block.height 1)
                (add_u64 reward (fees txs)))
              txs (add_u64 tip.block.height 1) n.params n.state
              (unfold is_coinbase bytes_eq in refl) r,
          run,
          zero_sum,
        )
        (after_rest-Verdict miner _ _ reward (fees txs) s' v (omega (arith, money)))

  pub build_candidate_lem :
      (miner : Address) (now : ℤ) (n : Node) {tip : Entry} {reward : ℕ} {txs : List Tx}
      → n.tip ≡ some tip
      → candidate_txs n ≡ some txs
      → reward_at n.params (add_u64 tip.block.height 1) ≡ some reward
      → build_candidate miner now n ≡ built (candidate_on miner now tip reward txs n)
  unfolding build_candidate
  build_candidate_lem miner now n has taken r = ground (arith, has, taken, r)

  -- At a node with a tip, whose mempool holds transactions with uint64 fields that `Verify` passes,
  -- whose money and next reward fit 64 bits, whose halving interval is not zero and whose limit on
  -- transactions is one or more, for a valid miner: `BuildCandidate` does not panic and returns a
  -- block with no more transactions than the limit, and `ApplyBlock` applies it to the node's
  -- state, except where the reward and the fees are zero: that block is refused for its empty
  -- coinbase.
  pub build_candidate-applies :
      (miner : Address) (now : ℤ) (k : ℕ) (n : Node) {tip : Entry} {reward : ℕ}
      → n.tip ≡ some tip
      → reward_at n.params (add_u64 tip.block.height 1) ≡ some reward
      → n.params.max_txs_per_block ≡ pos (suc k)
      → is_valid miner ≡ true
      → SoundPool n
      → IsU64 (total n.state + reward)
      → (b : Block) × (txs : List Tx) × (build_candidate miner now n ≡ built b)
        × (candidate_txs n ≡ some txs)
        × (length b.txs ≤ suc k)
        × ((apply_block b n.params n.state).0 ≡ (
            if reward + fees txs == 0 then failed (coinbase_invalid empty_coinbase) else done tt))
  unfolding candidate_on
  build_candidate-applies miner now k n {tip} {reward} has r limit v sound room =
      let (txs, taken, runs, few) = candidate_txs-Takes n k sound (omega arith) limit in
      (
        candidate_on miner now tip reward txs n,
        txs,
        build_candidate_lem miner now n has taken r,
        taken,
        omega (arith, few),
        candidate_on-Verdict miner now tip reward txs n r v runs room,
      )
