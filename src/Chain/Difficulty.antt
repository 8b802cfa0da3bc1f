-- ===== src/Chain/Difficulty.antt =====
-- `NextDifficulty` of internal/chain/params.go.
pub mod Bounds
use blu_gold.Base.{
  ℕ, ◌+◌, ◌-◌, ◌*◌, ◌/◌, ◌%◌, ◌≤◌, ◌^◌, Bool, true, false, not, ◌||◌, Option, none, some, ltb, leb,
  ◌==◌, if◌then◌else◌, u64_mod, add_u64,
}
use blu_gold.Base.Int.{ℤ, pos, ◌*ℤ◌, ◌-ℤ◌, wrap_i64, of_u64, ltb_ℤ, leb_ℤ, pos_part}
use blu_gold.Chain.Params.{Params}
use blu_gold.Chain.Block.{Block}

-- No retarget for the block after `tip`.
unfoldable pub keeps_difficulty : Params → Block → Bool
keeps_difficulty p tip =
    p.blocks_per_retarget == 0
    || ltb (add_u64 tip.height 1) p.blocks_per_retarget
    || not (add_u64 tip.height 1 % p.blocks_per_retarget == 0)

-- The time that an interval should take; at least 1.
unfoldable pub expected_time : Params → ℤ
expected_time p =
    let t = wrap_i64 (p.target_block_time *ℤ of_u64 p.blocks_per_retarget) in
    if leb_ℤ t (pos 0) then pos 1 else t

-- The switch: the exact new difficulty, a `big.Int`.
unfoldable pub retargeted : ℕ → ℤ → ℤ → ℕ
retargeted d expected actual =
    if leb_ℤ actual (pos 0) || ltb_ℤ (wrap_i64 (actual *ℤ pos 4)) expected
    then d * 4
    else if ltb_ℤ (wrap_i64 (pos 4 *ℤ expected)) actual
    then d / 4
    else d * pos_part expected / pos_part actual

-- At least 1, and at most the largest uint64.
unfoldable pub clamp_difficulty : ℕ → ℕ
clamp_difficulty d = if d == 0 then 1 else if leb u64_mod d then u64_mod - 1 else d

unfoldable pub next_difficulty : Params → Option Block → Option Block → ℕ
next_difficulty p none anchor = 1
next_difficulty p (some tip) none = tip.difficulty
next_difficulty p (some tip) (some anchor) =
    if keeps_difficulty p tip
    then tip.difficulty
    else clamp_difficulty
        (retargeted tip.difficulty (expected_time p) (wrap_i64 (tip.time -ℤ anchor.time)))
