-- ===== src/Miner/Rounds/Minable.antt =====
-- The candidates of a node whose tip has a hash of 32 bytes can be mined on the GPU.
use blu_gold.Base.{
  ℕ, zero, suc, ◌≡◌, refl, ◌%◌, subst, Bool-cases, inl, inr, Option, some, none, List, [], ◌∷◌,
  ◌++◌, map, Bytes, IsByte, All, All-append, length, length-replicate, ltb, ◌==◌, add_u64,
}
use blu_gold.Base.Int.{ℤ}
use blu_gold.Crypto.Interface.{Primitives}
use blu_gold.Crypto.{Address, addr_length}
use blu_gold.Chain.Params.{reward_at}
use blu_gold.Chain.Tx.{Tx, Hash, hash_bytes, tx_hash}
use blu_gold.Chain.Block.{
  Block, zero_hash, last_hash, pad_level, hash_pairs, merkle_loop, merkle_root_of,
}
use blu_gold.Node.Data.{Entry, Node}
use blu_gold.Node.Transactions.{
  BuiltCandidate, no_tip, candidate_panics, built, candidate_txs, candidate_on, build_candidate,
}
use blu_gold.Miner.Midstate.Template.{zeros-IsByte}
use blu_gold.Miner.Midstate.Header.{IsMinable}

abbrev pub IsDigest : Hash → Type 0
IsDigest h = All IsByte h × (length h ≡ 32)

-- The bytes of a miner's address, as long as an address.
abbrev pub IsAddressText : Address → Type 0
IsAddressText a = All IsByte a × (length a ≡ addr_length)

zero_hash-IsDigest : IsDigest zero_hash
zero_hash-IsDigest = (zeros-IsByte 32, length-replicate {A = ℕ} 32 0)

last_hash-IsDigest : (level : List Hash) → All IsDigest level → IsDigest (last_hash level)
unfolding last_hash
last_hash-IsDigest [] h = zero_hash-IsDigest
last_hash-IsDigest (g ∷ []) (hg, h) = hg
last_hash-IsDigest (g ∷ k ∷ level) (hg, h) = last_hash-IsDigest (k ∷ level) h

pad_level-IsDigest : (level : List Hash) → All IsDigest level → All IsDigest (pad_level level)
unfolding pad_level
pad_level-IsDigest level h = elim (Bool-cases (length level % 2 == 1)) [
  | inl odd ↦
      rw odd (All-append IsDigest level (last_hash level ∷ []) h (last_hash-IsDigest level h, tt))
  | inr even ↦ rw even h
]

module _ ⦃c : Primitives⦄ where
  sha256-IsDigest : (b : Bytes) → IsDigest (c.sha256 b)
  sha256-IsDigest b = (c.sha256_bytes b, c.sha256_length b)

  hash_pairs-IsDigest : (level : List Hash) → All IsDigest (hash_pairs level)
  unfolding hash_pairs
  hash_pairs-IsDigest [] = tt
  hash_pairs-IsDigest (a ∷ []) = tt
  hash_pairs-IsDigest (a ∷ b ∷ rest) = (sha256-IsDigest (a ++ b), hash_pairs-IsDigest rest)

  merkle_loop-IsDigest :
      (fuel : ℕ) (level : List Hash) → All IsDigest level → All IsDigest (merkle_loop fuel level)
  unfolding merkle_loop
  merkle_loop-IsDigest zero level h = h
  merkle_loop-IsDigest (suc fuel) level h = elim (Bool-cases (ltb 1 (length level))) [
    | inl more ↦
        rw (more, merkle_loop)
          (merkle_loop-IsDigest fuel (hash_pairs (pad_level level))
            (hash_pairs-IsDigest (pad_level level)))
    | inr one ↦ rw (one, merkle_loop) h
  ]

  tx_hashes-IsDigest : (txs : List Tx) → All IsDigest (map tx_hash txs)
  unfolding tx_hash hash_bytes
  tx_hashes-IsDigest [] = tt
  tx_hashes-IsDigest (t ∷ ts) = (sha256-IsDigest _, tx_hashes-IsDigest ts)

  merkle_root_of-IsDigest : (txs : List Tx) → IsDigest (merkle_root_of txs)
  unfolding merkle_root_of
  merkle_root_of-IsDigest [] = zero_hash-IsDigest
  merkle_root_of-IsDigest (t ∷ ts) =
      last_hash-IsDigest (merkle_loop (length (t ∷ ts)) (map tx_hash (t ∷ ts))) (
        merkle_loop-IsDigest (length (t ∷ ts)) (map tx_hash (t ∷ ts)) (tx_hashes-IsDigest (t ∷ ts)))

  candidate_on-IsMinable :
      (addr : Address) (now : ℤ) (tip : Entry) (reward : ℕ) (txs : List Tx) (n : Node)
      → IsAddressText addr
      → IsDigest tip.hash
      → IsMinable (candidate_on addr now tip reward txs n)
  unfolding candidate_on
  candidate_on-IsMinable addr now tip reward txs n a d = record {
    prev_bytes = d.0;
    prev_length = d.1;
    miner_bytes = a.0;
    miner_length = a.1;
    root_bytes = (merkle_root_of-IsDigest _).0;
    root_length = (merkle_root_of-IsDigest _).1;
  }

  module _ (addr : Address) (now : ℤ) (n : Node) (cand : Block) where
    on_reward :
        (tip : Entry) (txs : List Tx) (r : Option ℕ)
        → elim r as (λ _. BuiltCandidate) [
          | none ↦ candidate_panics
          | some reward ↦ built (candidate_on addr now tip reward txs n)
        ]
          ≡ built cand
        → (reward : ℕ) × (candidate_on addr now tip reward txs n ≡ cand)
    on_reward tip txs none e = cc
    on_reward tip txs (some reward) e = (reward, cc)

    on_txs :
        (tip : Entry) (o : Option (List Tx))
        → elim o as (λ _. BuiltCandidate) [
          | none ↦ candidate_panics
          | some txs ↦ elim (reward_at n.params (add_u64 tip.block.height 1)) [
            | none ↦ candidate_panics
            | some reward ↦ built (candidate_on addr now tip reward txs n)
          ]
        ]
          ≡ built cand
        → (reward : ℕ) × (txs : List Tx) × (candidate_on addr now tip reward txs n ≡ cand)
    on_txs tip none e = cc
    on_txs tip (some txs) e =
        let (reward, made) =
          on_reward tip txs (reward_at n.params (add_u64 tip.block.height 1)) e in
        (reward, txs, made)

    on_tip :
        (o : Option Entry)
        → elim o as (λ _. BuiltCandidate) [
          | none ↦ no_tip
          | some tip ↦ elim (candidate_txs n) [
            | none ↦ candidate_panics
            | some txs ↦ elim (reward_at n.params (add_u64 tip.block.height 1)) [
              | none ↦ candidate_panics
              | some reward ↦ built (candidate_on addr now tip reward txs n)
            ]
          ]
        ]
          ≡ built cand
        → (tip : Entry) × (o ≡ some tip)
          × ((reward : ℕ) × (txs : List Tx) × (candidate_on addr now tip reward txs n ≡ cand))
    on_tip none e = cc
    on_tip (some tip) e = (tip, refl, on_txs tip (candidate_txs n) e)

    pub build_candidate-IsMinable :
        IsAddressText addr
        → ((tip : Entry) → n.tip ≡ some tip → IsDigest tip.hash)
        → build_candidate addr now n ≡ built cand
        → IsMinable cand
    unfolding build_candidate
    build_candidate-IsMinable a d made_it =
        let (tip, found, (reward, txs, made)) = on_tip n.tip made_it in
        subst (λ (b : Block). IsMinable b) made
          (candidate_on-IsMinable addr now tip reward txs n a (d tip found))
