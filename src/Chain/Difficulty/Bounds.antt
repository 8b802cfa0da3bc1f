-- ===== src/Chain/Difficulty/Bounds.antt =====
-- How far one retarget moves the difficulty.
use blu_gold.Base.{
  ℕ, zero, suc, ◌+◌, ◌*◌, ◌/◌, ◌^◌, ◌≤◌, ◌<◌, ◌≡◌, inl, inr, refl, Option, none, some, arith,
  Bool-cases, true, IsU64,
}
use native.Mathlib.Nat.{div-le_of_le-mul, mul-le-mul_left, lt_of_mul-lt-mul_left, lt-mul-div-succ}
use blu_gold.Base.Int.{ℤ, pos, negsuc, pos_part, wrap_i64, of_u64, IsI64, ◌*ℤ◌, ◌-ℤ◌, ltb_ℤ}
use blu_gold.Chain.Params.{Params}
use blu_gold.Chain.Block.{Block}
use blu_gold.Chain.Difficulty.{
  keeps_difficulty, expected_time, retargeted, clamp_difficulty, next_difficulty,
}

-- A factor of 4 at most, up or down, rounded down; positive; a uint64.
abbrev pub IsNear : ℕ → ℕ → Type 0
IsNear d r = (1 ≤ r) × IsU64 r × (r ≤ 4 * d) × (d ≤ 4 * r + 3)

scaled_near :
    (d e a : ℕ) → 0 < a → e ≤ 4 * a → a ≤ 4 * e → (d * e / a ≤ 4 * d) × (d ≤ 4 * (d * e / a) + 3)
scaled_near d e a p h k = (
  div-le_of_le-mul a (omega (arith, mul-le-mul_left d h)),
  omega (arith, lt_of_mul-lt-mul_left a below),
)
  where
    below : a * d < a * (4 * (d * e / a + 1))
    below = omega (arith, mul-le-mul_left d k, lt-mul-div-succ (d * e) p)

clamp_difficulty-IsNear :
    (d r : ℕ) → 1 ≤ d → IsU64 d → r ≤ 4 * d → d ≤ 4 * r + 3 → IsNear d (clamp_difficulty r)
unfolding clamp_difficulty
clamp_difficulty-IsNear d r p u h k = ground arith

-- `actual * 4` may wrap, and is still no less than an interval below 2 ^ 61.
times_four :
    (a e : ℕ)
    → 0 < a
    → e < 2 ^ 61
    → IsI64 (pos a)
    → 4 * a < e
    → ltb_ℤ (wrap_i64 (pos a *ℤ pos 4)) (pos e) ≡ true
unfolding wrap_i64 ◌*ℤ◌
times_four a e p h i k = ground arith

retargeted_near :
    (d : ℕ) (e : ℕ) (actual : ℤ)
    → 1 ≤ e
    → e < 2 ^ 61
    → IsI64 actual
    → (retargeted d (pos e) actual ≤ 4 * d) × (d ≤ 4 * retargeted d (pos e) actual + 3)
unfolding retargeted
retargeted_near d e (negsuc a) p h i = ground arith
retargeted_near d e (pos a) p h i = ground (arith, times_four a e, scaled_near d e a, four_expected)
  where
    four_expected : wrap_i64 (pos 4 *ℤ pos e) ≡ pos (4 * e)
    four_expected = unfold wrap_i64 ◌*ℤ◌ in ground arith

wrap-IsI64 : (z : ℤ) → IsI64 (wrap_i64 z)
unfolding wrap_i64
wrap-IsI64 (pos n) = ground arith
wrap-IsI64 (negsuc n) = ground arith

expected_pos : (p : Params) → (e : ℕ) × (expected_time p ≡ pos e) × (1 ≤ e)
unfolding expected_time
expected_pos p = go (wrap_i64 (p.target_block_time *ℤ of_u64 p.blocks_per_retarget)) refl
  where
    go :
        (z : ℤ)
        → wrap_i64 (p.target_block_time *ℤ of_u64 p.blocks_per_retarget) ≡ z
        → (e : ℕ) × (expected_time p ≡ pos e) × (1 ≤ e)
    go (pos zero) q = (1, rw q refl, omega arith)
    go (pos (suc n)) q = (suc n, rw q (ground arith), omega arith)
    go (negsuc n) q = (1, rw q (ground arith), omega arith)

-- From a positive uint64 difficulty, and with an expected interval below 2 ^ 61 ms, the next
-- difficulty is a positive uint64 and at most four times the old one; it is at least a quarter of
-- it, rounded down. This holds for all timestamps of tip and anchor.
pub next_difficulty_bounds :
    (p : Params) (tip : Block) (anchor : Option Block)
    → 1 ≤ tip.difficulty
    → IsU64 tip.difficulty
    → pos_part (expected_time p) < 2 ^ 61
    → IsNear tip.difficulty (next_difficulty p (some tip) anchor)
unfolding next_difficulty
next_difficulty_bounds p tip none h u k = ground arith
next_difficulty_bounds p tip (some anchor) h u k =
    let (e, q, low) = expected_pos p in
    elim (Bool-cases (keeps_difficulty p tip)) [
      | inl keeps ↦ rw keeps (ground arith)
      | inr moves ↦ rw (moves, q) (near e q low)
    ]
  where
    near :
        (e : ℕ)
        → expected_time p ≡ pos e
        → 1 ≤ e
        → IsNear tip.difficulty (
            clamp_difficulty
              (retargeted tip.difficulty (pos e) (wrap_i64 (tip.time -ℤ anchor.time))))
    near e q low =
        let (up, down) =
          retargeted_near tip.difficulty e (wrap_i64 (tip.time -ℤ anchor.time)) low
            (ground (arith, q)) (wrap-IsI64 _) in
        clamp_difficulty-IsNear tip.difficulty _ h u up down
