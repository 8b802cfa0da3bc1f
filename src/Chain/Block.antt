-- ===== src/Chain/Block.antt =====
-- internal/chain/block.go: blocks, the merkle root, and the checks against the parent.
pub mod Twin
pub mod Header
pub mod Merkle
use blu_gold.Base.{
  ℕ, zero, suc, ◌+◌, ◌*◌, ◌%◌, Bool, true, false, not, ◌||◌, Option, none, some, List, [], ◌∷◌,
  ◌++◌, map, Bytes, bytes_eq, length, replicate, ltb, ◌==◌, if◌then◌else◌, add_u64, Result, ok, err,
  ◌>>=◌, ◌>>◌, fail_if,
}
use mathlib.Core.List.{foldl}
use blu_gold.Base.Int.{ℤ, pos, ◌+ℤ◌, wrap_i64, ltb_ℤ, leb_ℤ}
use blu_gold.Crypto.Interface.{Primitives}
use blu_gold.Crypto.{Address, coinbase_address, is_valid}
use blu_gold.Chain.Codec.{write_u64, write_i64, write_string, write_bytes}
use blu_gold.Chain.Params.{Params, target}
use blu_gold.Chain.Tx.{Tx, Hash, hash_bytes, tx_hash, is_coinbase}

pub record Block : Type 0 where
  pub height : ℕ
  pub prev_hash : Hash
  pub time : ℤ
  pub difficulty : ℕ
  pub miner : Address
  pub extra_nonce : ℕ
  pub merkle_root : Hash
  pub nonce : ℕ
  pub txs : List Tx

unfoldable pub header_bytes : Block → Bytes
header_bytes b =
    let buf = write_u64 [] b.height in
    let buf = write_bytes buf b.prev_hash in
    let buf = write_i64 buf b.time in
    let buf = write_u64 buf b.difficulty in
    let buf = write_string buf b.miner in
    let buf = write_u64 buf b.extra_nonce in
    let buf = write_bytes buf b.merkle_root in write_u64 buf b.nonce

-- `Hash{}`
abbrev pub zero_hash : Hash
zero_hash = replicate 32 0

-- `big.Int.SetBytes`
unfoldable pub be_number : Bytes → ℕ
be_number = foldl (λ acc b. acc * 256 + b) 0

-- `level[len(level)-1]`
unfoldable pub last_hash : List Hash → Hash
last_hash [] = zero_hash
last_hash (h ∷ []) = h
last_hash (h ∷ g ∷ hs) = last_hash (g ∷ hs)

-- An odd level gets its last hash once more.
unfoldable pub pad_level : List Hash → List Hash
pad_level level = if length level % 2 == 1 then level ++ (last_hash level ∷ []) else level

unfoldable pub starts_with_coinbase : List Tx → Bool
starts_with_coinbase [] = false
starts_with_coinbase (t ∷ ts) = is_coinbase t

-- The loop over `b.Txs[1:]`.
unfoldable pub has_coinbase : List Tx → Bool
has_coinbase [] = false
has_coinbase (t ∷ ts) = is_coinbase t || has_coinbase ts

unfoldable pub has_extra_coinbase : List Tx → Bool
unfolding has_coinbase
has_extra_coinbase [] = false
has_extra_coinbase (t ∷ ts) = has_coinbase ts

pub data BlockError : Type 0 where
  no_parent height_gap prev_mismatch not_after_parent too_far_ahead no_coinbase : BlockError
  too_many_txs extra_coinbase invalid_miner merkle_mismatch zero_difficulty above_target :
      BlockError

module _ ⦃c : Primitives⦄ where
  unfoldable pub block_hash : Block → Hash
  block_hash b = hash_bytes (header_bytes b)

  -- One round of the inner loop of `MerkleRoot`.
  unfoldable pub hash_pairs : List Hash → List Hash
  hash_pairs [] = []
  hash_pairs (a ∷ []) = []
  hash_pairs (a ∷ b ∷ rest) = c.sha256 (a ++ b) ∷ hash_pairs rest

  -- `for len(level) > 1`, with the rounds that are left.
  unfoldable pub merkle_loop : ℕ → List Hash → List Hash
  merkle_loop zero level = level
  merkle_loop (suc fuel) level = elim (ltb 1 (length level)) [
    | true ↦ merkle_loop fuel (hash_pairs (pad_level level))
    | false ↦ level
  ]

  -- Each round leaves half of the hashes, so as many rounds as transactions are enough.
  unfoldable pub merkle_root_of : List Tx → Hash
  merkle_root_of [] = zero_hash
  merkle_root_of (t ∷ ts) = last_hash (merkle_loop (length (t ∷ ts)) (map tx_hash (t ∷ ts)))

  unfoldable pub meets_target : Block → Bool
  meets_target b =
      if b.difficulty == 0 then false else ltb (be_number (block_hash b)) (target b.difficulty)

  -- `ValidateBasic` below a parent that is known.
  unfoldable pub validate_child : Params → Block → ℤ → Block → Result BlockError (Unit {0})
  validate_child p parent now b = do
    fail_if (not (b.height == add_u64 parent.height 1)) height_gap
    fail_if (not (bytes_eq b.prev_hash (block_hash parent))) prev_mismatch
    fail_if (leb_ℤ b.time parent.time) not_after_parent
    fail_if (ltb_ℤ (wrap_i64 (now +ℤ p.max_future_time)) b.time) too_far_ahead
    fail_if (not (starts_with_coinbase b.txs)) no_coinbase
    fail_if (ltb_ℤ p.max_txs_per_block (pos (length b.txs))) too_many_txs
    fail_if (has_extra_coinbase b.txs) extra_coinbase
    fail_if (bytes_eq b.miner coinbase_address || not (is_valid b.miner)) invalid_miner
    fail_if (not (bytes_eq (merkle_root_of b.txs) b.merkle_root)) merkle_mismatch

  unfoldable pub validate_basic : Params → Option Block → ℤ → Block → Result BlockError (Unit {0})
  validate_basic p none now b = err no_parent
  validate_basic p (some parent) now b = validate_child p parent now b

  unfoldable pub validate_pow : Block → Result BlockError (Unit {0})
  validate_pow b = do
    fail_if (b.difficulty == 0) zero_difficulty
    fail_if (not (meets_target b)) above_target

  unfoldable pub genesis : Params → Block
  genesis p = record {
    height = 0;
    prev_hash = zero_hash;
    time = p.genesis_time;
    difficulty = 1;
    miner = coinbase_address;
    extra_nonce = 0;
    merkle_root = merkle_root_of [];
    nonce = 0;
    txs = [];
  }
