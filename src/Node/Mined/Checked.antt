-- ===== src/Node/Mined/Checked.antt =====
-- A candidate with its nonces found passes the checks of the node that made it.
use blu_gold.Base.{
  ==_iff, ℕ, suc, ◌≤◌, ◌≡◌, refl, ap, ◌∙◌, inl, inr, true, false, not, ◌||◌, Bool-cases, some, List,
  [], ◌∷◌, length, bytes_eq, bytes_eq_refl, arith, ok, IsU64, add_u64, ◌==◌,
}
use blu_gold.Base.Int.{ℤ, pos, negsuc, ◌+ℤ◌, wrap_i64, ltb_ℤ, leb_ℤ}
use blu_gold.Crypto.Interface.{Primitives}
use blu_gold.Crypto.{Address, coinbase_address, is_valid}
use blu_gold.Crypto.AddressLaws.{is_valid-not_coinbase}
use blu_gold.Chain.Tx.{Tx, is_coinbase}
use blu_gold.Chain.Params.{Params}
use blu_gold.Chain.Block.{
  Block, has_coinbase, has_extra_coinbase, starts_with_coinbase, merkle_root_of, block_hash,
  meets_target, validate_child, validate_basic, validate_pow,
}
use blu_gold.Chain.Difficulty.{next_difficulty}
use blu_gold.Node.Tree.{anchor_of}
use blu_gold.State.Monad.{State, Outcome, done, failed, panic}
use blu_gold.State.{apply_tx}
use blu_gold.State.Total.{total}
use blu_gold.State.Transfer.{Transfers, apply_tx-Transfers}
use blu_gold.Node.Data.{Entry, Node}
use blu_gold.Node.Insert.{check_block}
use blu_gold.Node.Transactions.{candidate_time, candidate_on}
use blu_gold.Node.Transactions.Picked.{Runs}

next_later : (x : ℤ) → leb_ℤ (x +ℤ pos 1) x ≡ false
unfolding ◌+ℤ◌
next_later (pos x) = ground arith
next_later (negsuc x) = ground arith

-- The time of a candidate is behind the tip's.
candidate_time-later :
    (now : ℤ) (tip : Entry)
    → wrap_i64 (tip.block.time +ℤ pos 1) ≡ tip.block.time +ℤ pos 1
    → leb_ℤ (candidate_time now tip) tip.block.time ≡ false
unfolding candidate_time
candidate_time-later now tip h = elim (Bool-cases (leb_ℤ now tip.block.time)) [
  | inl early ↦ rw (early, h) (next_later tip.block.time)
  | inr late ↦ rw late late
]

module _ ⦃c : Primitives⦄ where
  applied-transfer :
      (t : Tx) (s : State) (x : Outcome (Unit {0}) × State)
      → x.0 ≡ done tt
      → Transfers t s x
      → is_coinbase t ≡ false
  applied-transfer t s (done _, s') h a = a.0.transfer
  applied-transfer t s (failed e, s') h a = cc
  applied-transfer t s (panic, s') h a = absurd a

  total-applied :
      (t : Tx) (s : State) (x : Outcome (Unit {0}) × State) → Transfers t s x → total x.1 ≤ total s
  total-applied t s (done _, s') a = omega (arith, a.1)
  total-applied t s (failed e, s') a = omega (arith, a.1)
  total-applied t s (panic, s') a = absurd a

  -- Transactions that apply, one after the other, have no coinbase among them.
  Runs-has_coinbase :
      (ts : List Tx) (s : State) → IsU64 (total s) → Runs ts s → has_coinbase ts ≡ false
  unfolding has_coinbase
  Runs-has_coinbase [] s hs h = refl
  Runs-has_coinbase (t ∷ ts) s hs (sound, fine, rest) =
      let moves = apply_tx-Transfers t s sound.1.amount_fits sound.1.fee_fits hs in
      rw (applied-transfer t s (apply_tx t s) fine moves) (
        Runs-has_coinbase ts (apply_tx t s).1
          (omega (arith, total-applied t s (apply_tx t s) moves)) rest)

  validate_child-ok :
      (p : Params) (parent : Block) (now : ℤ) (b : Block)
      → b.height == add_u64 parent.height 1 ≡ true
      → bytes_eq b.prev_hash (block_hash parent) ≡ true
      → leb_ℤ b.time parent.time ≡ false
      → ltb_ℤ (wrap_i64 (now +ℤ p.max_future_time)) b.time ≡ false
      → starts_with_coinbase b.txs ≡ true
      → ltb_ℤ p.max_txs_per_block (pos (length b.txs)) ≡ false
      → has_extra_coinbase b.txs ≡ false
      → (bytes_eq b.miner coinbase_address || not (is_valid b.miner)) ≡ false
      → bytes_eq (merkle_root_of b.txs) b.merkle_root ≡ true
      → validate_child p parent now b ≡ ok tt
  unfolding validate_child
  validate_child-ok p parent now b h1 h2 h3 h4 h5 h6 h7 h8 h9 =
      rw (h1, h2, h3, h4, h5, h6, h7, h8, h9) refl

  validate_pow-ok : (b : Block) → meets_target b ≡ true → validate_pow b ≡ ok tt
  unfolding validate_pow meets_target
  validate_pow-ok b h = ground (arith, h)

  check_block-ok :
      (now : ℤ) (parent : Entry) (b : Block) (n : Node)
      → validate_child n.params parent.block now b ≡ ok tt
      → b.difficulty == next_difficulty n.params (some parent.block) (anchor_of parent n) ≡ true
      → meets_target b ≡ true
      → check_block now parent b n ≡ ok tt
  unfolding check_block validate_basic
  check_block-ok now parent b n child same good =
      rw (check_block, child, same, validate_pow-ok b good) refl

  -- The candidate with the nonces that a miner found.
  abbrev pub found : Address → ℤ → Entry → ℕ → List Tx → ℕ → ℕ → Node → Block
  found miner now tip reward txs extra nonce n = record (candidate_on miner now tip reward txs n) {
    extra_nonce = extra;
    nonce = nonce;
  }

  module _ (miner : Address) (now later : ℤ) (tip : Entry) (reward extra nonce k : ℕ)
      (txs : List Tx) (n : Node) (v : is_valid miner ≡ true) (runs : Runs txs n.state)
      (few : length txs ≤ k) (hs : IsU64 (total n.state))
      (limit : n.params.max_txs_per_block ≡ pos (suc k)) where
    coinbase_only : has_coinbase txs ≡ false
    coinbase_only = Runs-has_coinbase txs n.state hs runs

    payable : (bytes_eq miner coinbase_address || not (is_valid miner)) ≡ false
    payable = ground (arith, v, is_valid-not_coinbase miner v)

    within : ltb_ℤ n.params.max_txs_per_block (pos (suc (length txs))) ≡ false
    within = ground (arith, limit, few)

    found-child :
        tip.hash ≡ block_hash tip.block
        → wrap_i64 (tip.block.time +ℤ pos 1) ≡ tip.block.time +ℤ pos 1
        → ltb_ℤ (wrap_i64 (later +ℤ n.params.max_future_time)) (candidate_time now tip) ≡ false
        → validate_child n.params tip.block later (found miner now tip reward txs extra nonce n)
          ≡ ok tt
    unfolding candidate_on starts_with_coinbase has_extra_coinbase is_coinbase
    found-child own fits near =
        validate_child-ok n.params tip.block later (found miner now tip reward txs extra nonce n)
          (ground arith) (ap (λ h. bytes_eq h (block_hash tip.block)) own ∙ bytes_eq_refl _)
          (candidate_time-later now tip fits) near (unfold bytes_eq in refl) within coinbase_only
          payable (bytes_eq_refl _)

    -- The checks below a parent pass, once the nonces meet the target.
    pub found-check :
        tip.hash ≡ block_hash tip.block
        → wrap_i64 (tip.block.time +ℤ pos 1) ≡ tip.block.time +ℤ pos 1
        → ltb_ℤ (wrap_i64 (later +ℤ n.params.max_future_time)) (candidate_time now tip) ≡ false
        → meets_target (found miner now tip reward txs extra nonce n) ≡ true
        → check_block later tip (found miner now tip reward txs extra nonce n) n ≡ ok tt
    found-check own fits near good =
        check_block-ok later tip (found miner now tip reward txs extra nonce n) n
          (found-child own fits near) (unfold candidate_on in (==_iff _ _).1 refl) good
