-- ===== src/Chain/Block/Merkle.antt =====
-- The merkle root: the loop ends, and a doubled last transaction is not seen.
use blu_gold.Base.{
  ℕ, zero, suc, ◌+◌, ◌/◌, ◌%◌, ◌≤◌, ◌<◌, ◌≡◌, refl, ap, [], ◌∷◌, ◌++◌, List, map, length,
  length-append, length-map, arith,
}
use mathlib.Core.List.{append_assoc, map-append}
use blu_gold.Crypto.Interface.{Primitives}
use blu_gold.Chain.Tx.{Tx, Hash, tx_hash}
use blu_gold.Chain.Block.{last_hash, pad_level, hash_pairs, merkle_loop, merkle_root_of}

last_hash-append : (level : List Hash) (h : Hash) → last_hash (level ++ (h ∷ [])) ≡ h
unfolding last_hash
last_hash-append [] h = refl
last_hash-append (g ∷ []) h = refl
last_hash-append (g ∷ k ∷ level) h = last_hash-append (k ∷ level) h

pad_level-odd :
    (level : List Hash) (h : Hash)
    → length level % 2 ≡ 0
    → pad_level (level ++ (h ∷ [])) ≡ level ++ (h ∷ h ∷ [])
unfolding pad_level
pad_level-odd level h even =
    rw last_hash-append
      (ground (arith, length-append level (h ∷ []), append_assoc level (h ∷ []) (h ∷ [])))

pad_level-even : (level : List Hash) → length level % 2 ≡ 0 → pad_level level ≡ level
unfolding pad_level
pad_level-even level even = ground arith

length-pad : (level : List Hash) → length (pad_level level) ≡ length level + length level % 2
unfolding pad_level
length-pad level = ground (arith, length-append level (last_hash level ∷ []))

module _ ⦃c : Primitives⦄ where
  length-hash_pairs : (level : List Hash) → length (hash_pairs level) ≡ length level / 2
  unfolding hash_pairs
  length-hash_pairs [] = refl
  length-hash_pairs (a ∷ []) = refl
  length-hash_pairs (a ∷ b ∷ rest) = omega (arith, length-hash_pairs rest)

  length-round :
      (level : List Hash) → length (hash_pairs (pad_level level)) ≡ (length level + 1) / 2
  length-round level = omega (arith, length-hash_pairs (pad_level level), length-pad level)

  -- With as many rounds as hashes the loop ends with one hash.
  merkle_loop_ends :
      (fuel : ℕ) (level : List Hash)
      → 1 ≤ length level
      → length level ≤ suc fuel
      → length (merkle_loop fuel level) ≡ 1
  unfolding merkle_loop
  merkle_loop_ends zero level p h = omega arith
  merkle_loop_ends (suc fuel) level p h =
      ground (arith, length-round level, merkle_loop_ends fuel (hash_pairs (pad_level level)))

  -- One more round changes nothing then.
  merkle_loop_steady :
      (fuel : ℕ) (level : List Hash)
      → length level ≤ suc fuel
      → merkle_loop (suc fuel) level ≡ merkle_loop fuel level
  unfolding merkle_loop
  merkle_loop_steady zero level h = ground arith
  merkle_loop_steady (suc fuel) level h =
      ground (arith, length-round level, merkle_loop_steady fuel (hash_pairs (pad_level level)))

  -- A first round on two hashes or more.
  merkle_loop_round :
      (fuel : ℕ) (level : List Hash)
      → 2 ≤ length level
      → merkle_loop (suc fuel) level ≡ merkle_loop fuel (hash_pairs (pad_level level))
  unfolding merkle_loop
  merkle_loop_round fuel level h = ground arith

  -- A level of odd length, 3 or more, and the same level with its last hash twice.
  merkle_loop_twin :
      (fuel : ℕ) (level : List Hash) (h : Hash)
      → 1 ≤ length level
      → length level % 2 ≡ 0
      → length level < fuel
      → merkle_loop (suc fuel) (level ++ (h ∷ h ∷ [])) ≡ merkle_loop fuel (level ++ (h ∷ []))
  merkle_loop_twin zero level h p even f = absurd (omega arith)
  merkle_loop_twin (suc fuel) level h p even f =
      rw
        (
          merkle_loop_round (suc fuel) (level ++ (h ∷ h ∷ []))
              (omega (arith, length-append level (h ∷ h ∷ []))),
          merkle_loop_round fuel (level ++ (h ∷ [])) (omega (arith, length-append level (h ∷ []))),
          pad_level-odd level h even,
          pad_level-even (level ++ (h ∷ h ∷ [])) (omega (arith, length-append level (h ∷ h ∷ []))),
        )
        (merkle_loop_steady fuel _ (
          omega
            (arith, length-hash_pairs (level ++ (h ∷ h ∷ [])), length-append level (h ∷ h ∷ []))))

  pub merkle_root-twin :
      (front : List Tx) (x : Tx)
      → 1 ≤ length front
      → length front % 2 ≡ 0
      → merkle_root_of (front ++ (x ∷ x ∷ [])) ≡ merkle_root_of (front ++ (x ∷ []))
  unfolding merkle_root_of
  merkle_root-twin [] x p even = absurd (omega arith)
  merkle_root-twin (t ∷ ts) x p even = ap last_hash loops
    where
      level : List Hash
      level = map tx_hash (t ∷ ts)

      rounds : length (ts ++ (x ∷ x ∷ [])) ≡ suc (length (ts ++ (x ∷ [])))
      rounds = omega (arith, length-append ts (x ∷ x ∷ []), length-append ts (x ∷ []))

      loops :
          merkle_loop (suc (length (ts ++ (x ∷ x ∷ [])))) (map tx_hash (t ∷ (ts ++ (x ∷ x ∷ []))))
          ≡ merkle_loop (suc (length (ts ++ (x ∷ [])))) (map tx_hash (t ∷ (ts ++ (x ∷ []))))
      loops =
          rw (rounds, map-append tx_hash ts (x ∷ x ∷ []), map-append tx_hash ts (x ∷ []))
            (merkle_loop_twin (suc (length (ts ++ (x ∷ [])))) level (tx_hash x) (omega arith)
              (omega (arith, length-map tx_hash ts))
              (omega (arith, length-map tx_hash ts, length-append ts (x ∷ []))))
