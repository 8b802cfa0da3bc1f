-- ===== src/Miner/Target.antt =====
-- internal/miner/sha256mid.go: a target as words, and the test of a hash.
use blu_gold.Base.{ℕ, zero, suc, ◌/◌, ◌%◌, Bool, List, [], ◌∷◌, ◌++◌, Bytes, ltb}
use blu_gold.Crypto.Interface.{Primitives}
use blu_gold.Chain.Block.{Block, be_number, block_hash}
use blu_gold.Miner.Midstate.{be_words}

-- `big.Int.FillBytes`, for a number that fits.
unfoldable pub fill_bytes : ℕ → ℕ → Bytes
fill_bytes zero v = []
fill_bytes (suc k) v = fill_bytes k (v / 256) ++ ((v % 256) ∷ [])

-- `targetWords`; a target is below 2^256.
unfoldable pub target_words : ℕ → List ℕ
target_words t = be_words (fill_bytes 32 t)

-- The test of a hash, `hv.Cmp(target) < 0`.
module _ ⦃c : Primitives⦄ where
  unfoldable pub hash_below : ℕ → Block → Bool
  hash_below target b = ltb (be_number (block_hash b)) target
