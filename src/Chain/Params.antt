-- ===== src/Chain/Params.antt =====
-- internal/chain/params.go: the consensus parameters, the reward schedule and the work target.
pub mod Supply
use blu_gold.Base.{ℕ, ◌-◌, ◌*◌, ◌/◌, ◌^◌, Option, none, some, leb, ◌==◌, if◌then◌else◌}
use blu_gold.Base.Int.{ℤ, pos}

pub record Params : Type 0 where
  pub genesis_time : ℤ
  pub initial_reward : ℕ
  pub halving_interval : ℕ
  pub blocks_per_retarget : ℕ
  pub target_block_time : ℤ
  pub max_txs_per_block : ℤ
  pub max_future_time : ℤ

abbrev pub default_params : Params
default_params = record {
  genesis_time = pos 1_727_049_600_000;
  initial_reward = 100_000_000;
  halving_interval = 10_080;
  blocks_per_retarget = 20;
  target_block_time = pos 360_000;
  max_txs_per_block = pos 1000;
  max_future_time = pos 300_000;
}

abbrev pub test_params : Params
test_params = record {
  genesis_time = pos 1_700_000_000_000;
  initial_reward = 100_000_000;
  halving_interval = 10_080;
  blocks_per_retarget = 1000;
  target_block_time = pos 1000;
  max_txs_per_block = pos 1000;
  max_future_time = pos 300_000;
}

-- The reward after `halvings` halvings.
unfoldable pub era_reward : Params → ℕ → ℕ
era_reward p halvings = if leb 64 halvings then 0 else p.initial_reward / 2 ^ halvings

-- `none` is the panic of Go's division where the interval is zero.
unfoldable pub reward_at : Params → ℕ → Option ℕ
reward_at p height =
    if p.halving_interval == 0 then none else some (era_reward p (height / p.halving_interval))

abbrev pub max_target : ℕ
max_target = 2 ^ 256 - 1

unfoldable pub target : ℕ → ℕ
target difficulty = max_target / (if difficulty == 0 then 1 else difficulty)
