-- ===== src/Node/Mined/Tip.antt =====
-- A candidate of a node, once it is mined and submitted there, becomes the node's tip.
use blu_gold.Base.{
  ℕ, suc, ◌+◌, ◌≤◌, ◌<◌, ◌≡◌, refl, sym, ◌∙◌, subst, ◌⊎◌, inl, inr, true, false, some, none, [],
  ◌∷◌, arith, List, length, IsU64, add_u64, All, Bytes, bytes_eq, bytes_eq→eq, ◌==◌,
}
use blu_gold.Base.Int.{ℤ, pos, ◌+ℤ◌, wrap_i64, ltb_ℤ}
use blu_gold.Base.Dict.{Dict, lookup}
use blu_gold.Crypto.Interface.{Primitives}
use blu_gold.Crypto.{Address, is_valid}
use blu_gold.Chain.Block.{Block, block_hash, meets_target}
use blu_gold.Chain.Params.{reward_at}
use blu_gold.State.Monad.{done}
use blu_gold.State.{apply_block}
use blu_gold.State.Total.{total}
use blu_gold.State.BlockMoney.{fees}
use blu_gold.Node.Data.{Entry, Node, is_rejected}
use blu_gold.Node.Insert.{waiting, entry_below}
use blu_gold.Node.Transactions.{candidate_txs, candidate_on, built, build_candidate}
use blu_gold.Node.Transactions.Candidate.{
  SoundPool, Takes, candidate_txs-Takes, Verdict, candidate_on-Verdict, build_candidate_lem,
}
use blu_gold.Node.Transactions.Picked.{Runs}
use blu_gold.Chain.Tx.{Tx}
use blu_gold.Node.Wallet.{submit_solution}
use blu_gold.Node.Ledger.Follows.{Follows}
use blu_gold.Node.Mined.Chosen.{Lighter}
use blu_gold.Node.Mined.Checked.{found, found-check}
use blu_gold.Node.Mined.Accepted.{Extends, insert_block-Extends}

-- Rejected, or of no more work than `tip`.
abbrev pub AtMost : Node → Entry → Bytes × Entry → Type 0
AtMost n tip p = (is_rejected p.1.hash n ≡ true) ⊎ (p.1.work ≤ tip.work)

module _ ⦃c : Primitives⦄ where
  -- The node knows nothing of the block.
  pub record IsNew (b : Block) (n : Node) : Type 0 where
    pub unlisted : lookup (block_hash b) n.blocks ≡ none
    pub accepted : is_rejected (block_hash b) n ≡ false
    pub unwanted : waiting (block_hash b) n.orphans ≡ []

  -- A solution of a candidate.
  abbrev pub with_nonces : Block → ℕ → ℕ → Block
  with_nonces b extra nonce = record b { extra_nonce = extra; nonce = nonce }

  All-Lighter :
      (n : Node) (tip : Entry) (b : Block) (d : Dict Entry)
      → 1 ≤ b.difficulty
      → All (AtMost n tip) d
      → All (Lighter n (entry_below tip b)) d
  All-Lighter n tip b [] h all = tt
  All-Lighter n tip b ((j, x) ∷ d) h (inl r, all) = (inl r, All-Lighter n tip b d h all)
  All-Lighter n tip b ((j, x) ∷ d) h (inr w, all) =
      (inr (omega (arith, w)), All-Lighter n tip b d h all)

  meets-positive : (b : Block) → meets_target b ≡ true → 1 ≤ b.difficulty
  unfolding meets_target
  meets-positive b h = ground (arith, h)

  module _ (miner : Address) (now later : ℤ) (extra nonce k : ℕ) (n : Node) (tip : Entry)
      (reward : ℕ) (txs : List Tx) (f : Follows n) (up : n.booting ≡ false) (has : n.tip ≡ some tip)
      (best : All (AtMost n tip) n.blocks) (fits : IsU64 (suc tip.block.height))
      (ticks : wrap_i64 (tip.block.time +ℤ pos 1) ≡ tip.block.time +ℤ pos 1)
      (limit : n.params.max_txs_per_block ≡ pos (suc k)) (v : is_valid miner ≡ true)
      (r : reward_at n.params (add_u64 tip.block.height 1) ≡ some reward) (runs : Runs txs n.state)
      (few : length txs ≤ k) (room : IsU64 (total n.state + reward))
      (pays : 0 < reward + fees txs) where
    abbrev b : Block
    b = found miner now tip reward txs extra nonce n

    found-applies : (apply_block b n.params n.state).0 ≡ done tt
    unfolding apply_block candidate_on
    found-applies = candidate_on-Verdict miner now tip reward txs n r v runs room ∙ settled
      where
        settled : Verdict (reward + fees txs) ≡ done tt
        settled = ground (arith, pays)

    listed : lookup tip.hash n.blocks ≡ some tip
    listed = (f.current tip has).listed

    new_hash : IsNew b n → bytes_eq tip.hash (block_hash b) ≡ false
    new_hash new = ground (arith, bytes_eq→eq tip.hash (block_hash b), listed, new.unlisted)

    above : b.height == 0 ≡ false
    unfolding candidate_on
    above = ground (arith, fits)

    found-Extends :
        ltb_ℤ (wrap_i64 (later +ℤ n.params.max_future_time)) b.time ≡ false
        → meets_target b ≡ true
        → IsNew b n
        → Extends tip b (submit_solution later b n)
    unfolding submit_solution candidate_on
    found-Extends near good new =
        insert_block-Extends n tip b up has refl new.accepted (new_hash new)
          (All-Lighter n tip b n.blocks (meets-positive b good) best) found-applies later
          new.unlisted above listed new.unwanted
          (found-check miner now later tip reward extra nonce k txs n v runs few (omega arith) limit
            (sym (f.tree.hashed tip.hash tip listed)) ticks near good)

  -- The transactions of a candidate run, and leave room for the coinbase.
  Takes-these :
      (k : ℕ) (n : Node) (txs : List Tx)
      → candidate_txs n ≡ some txs
      → Takes k (candidate_txs n) n.state
      → Runs txs n.state × (length txs ≤ k)
  Takes-these k n txs taken (txs', e, runs, few) =
      let same : txs' ≡ txs = ground (arith, taken, e) in
      subst (λ l. Runs l n.state × (length l ≤ k)) same (runs, few)

  -- On a node that follows its chain and has started, whose tip is at least as heavy as every block
  -- that is not rejected, whose height and clock have room above the tip, whose limit leaves room
  -- for a coinbase, whose mempool passes `Verify` with uint64 fields, and whose money and next
  -- reward fit 64 bits: take the candidate of a valid miner that earns a reward or fees, with
  -- nonces under which it meets its target. Where the node knows nothing of that block, and the
  -- block's time is not too far ahead when it is submitted, `SubmitSolution` accepts it, and it is
  -- the new tip.
  pub submit_solution-Extends :
      (miner : Address) (now later : ℤ) (extra nonce k : ℕ) (n : Node) (tip : Entry) (reward : ℕ)
      (txs : List Tx) (cand : Block)
      → Follows n
      → n.booting ≡ false
      → n.tip ≡ some tip
      → All (AtMost n tip) n.blocks
      → IsU64 (suc tip.block.height)
      → wrap_i64 (tip.block.time +ℤ pos 1) ≡ tip.block.time +ℤ pos 1
      → n.params.max_txs_per_block ≡ pos (suc k)
      → is_valid miner ≡ true
      → reward_at n.params (add_u64 tip.block.height 1) ≡ some reward
      → SoundPool n
      → IsU64 (total n.state + reward)
      → candidate_txs n ≡ some txs
      → 0 < reward + fees txs
      → build_candidate miner now n ≡ built cand
      → ltb_ℤ (wrap_i64 (later +ℤ n.params.max_future_time)) cand.time ≡ false
      → meets_target (with_nonces cand extra nonce) ≡ true
      → IsNew (with_nonces cand extra nonce) n
      → Extends tip
          (with_nonces cand extra nonce)
          (submit_solution later (with_nonces cand extra nonce) n)
  submit_solution-Extends miner now later extra nonce k n tip reward txs cand f up has best fits
        ticks limit v r sound room taken pays made =
      let (runs, few) =
        Takes-these k n txs taken (candidate_txs-Takes n k sound (omega arith) limit) in
      subst Becomes same (
        found-Extends miner now later extra nonce k n tip reward txs f up has best fits ticks limit
          v r runs few room pays)
    where
      same : candidate_on miner now tip reward txs n ≡ cand
      same = ground (arith, made, build_candidate_lem miner now n has taken r)

      Becomes : Block → Type 0
      Becomes x =
          ltb_ℤ (wrap_i64 (later +ℤ n.params.max_future_time)) x.time ≡ false
          → meets_target (with_nonces x extra nonce) ≡ true
          → IsNew (with_nonces x extra nonce) n
          → Extends tip (with_nonces x extra nonce)
              (submit_solution later (with_nonces x extra nonce) n)
