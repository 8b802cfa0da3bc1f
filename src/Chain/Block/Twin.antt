-- ===== src/Chain/Block/Twin.antt =====
-- A block whose last transaction is written twice, where the copy fills an odd merkle level.
use blu_gold.Base.{
  ℕ, ◌+◌, ◌%◌, ◌≡◌, refl, false, [], ◌∷◌, ◌++◌, List, Option, none, some, length, length-append,
  arith,
}
use blu_gold.Base.Int.{ℤ, pos, ◌≤ℤ◌, ltb_ℤ}
use blu_gold.Crypto.Interface.{Primitives}
use blu_gold.Chain.Params.{Params}
use blu_gold.Chain.Tx.{Tx}
use blu_gold.Chain.Block.{
  Block, header_bytes, block_hash, starts_with_coinbase, has_coinbase, has_extra_coinbase,
  validate_child, validate_basic, validate_pow, meets_target,
}
use blu_gold.Chain.Block.Merkle.{merkle_root-twin}

-- The block with other transactions under the same header.
abbrev pub with_txs : Block → List Tx → Block
with_txs b txs = record b { txs = txs }

has_coinbase-twin :
    (ts : List Tx) (x : Tx) → has_coinbase (ts ++ (x ∷ x ∷ [])) ≡ has_coinbase (ts ++ (x ∷ []))
unfolding has_coinbase
has_coinbase-twin [] x = ground arith
has_coinbase-twin (t ∷ ts) x = rw (has_coinbase-twin ts x)

fits : (m : ℤ) (n : ℕ) → pos n ≤ℤ m → ltb_ℤ m (pos n) ≡ false
fits m n h = ground arith

module _ ⦃c : Primitives⦄ where
  validate_child-twin :
      (p : Params) (parent b : Block) (now : ℤ) (t : Tx) (ts : List Tx) (x : Tx)
      → (length ts + 1) % 2 ≡ 0
      → pos (length ts + 3) ≤ℤ p.max_txs_per_block
      → validate_child p parent now (with_txs b (t ∷ (ts ++ (x ∷ x ∷ []))))
        ≡ validate_child p parent now (with_txs b (t ∷ (ts ++ (x ∷ []))))
  unfolding validate_child starts_with_coinbase has_extra_coinbase
  validate_child-twin p parent b now t ts x even room =
      rw
        (
          merkle_root-twin (t ∷ ts) x (omega arith) (omega arith),
          has_coinbase-twin ts x,
          fits p.max_txs_per_block (length (t ∷ (ts ++ (x ∷ x ∷ []))))
              (omega (arith, length-append ts (x ∷ x ∷ []))),
          fits p.max_txs_per_block (length (t ∷ (ts ++ (x ∷ []))))
              (omega (arith, length-append ts (x ∷ []))),
        )
        refl

  -- A block of an odd number of transactions, 3 or more, and the block that lists its last
  -- transaction once more, where the limit on their number allows it: both have the same hash,
  -- the same verdict against every parent, and the same verdict on the proof of work.
  pub twin_verdicts :
      (p : Params) (parent : Option Block) (b : Block) (now : ℤ) (t : Tx) (ts : List Tx) (x : Tx)
      → (length ts + 1) % 2 ≡ 0
      → pos (length ts + 3) ≤ℤ p.max_txs_per_block
      → let honest = with_txs b (t ∷ (ts ++ (x ∷ []))) in
        let twin = with_txs b (t ∷ (ts ++ (x ∷ x ∷ []))) in
        (block_hash twin ≡ block_hash honest)
        × (validate_basic p parent now twin ≡ validate_basic p parent now honest)
        × (validate_pow twin ≡ validate_pow honest)
  unfolding block_hash header_bytes validate_pow meets_target
  twin_verdicts p none b now t ts x even room = (refl, unfold validate_basic in refl, refl)
  twin_verdicts p (some parent) b now t ts x even room =
      (refl, unfold validate_basic in validate_child-twin p parent b now t ts x even room, refl)
