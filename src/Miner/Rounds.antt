-- ===== src/Miner/Rounds.antt =====
-- `mineOnceGPU`, `mineOnce` and `Run` of internal/miner/miner.go. What a round meets is a Turn: the
-- node and the clock at its start, what each round of the GPU's loop finds at its `select`, and
-- the moves of the workers.
pub mod Solved
pub mod Minable
pub mod Healthy
pub mod Good
pub mod Ending
use blu_gold.Base.{
  ℕ, ◌+◌, Option, none, some, List, [], ◌∷◌, ◌++◌, Bytes, if◌then◌else◌, add_u64, Result, ok, err,
}
use blu_gold.Base.Int.{ℤ}
use blu_gold.Crypto.Interface.{Primitives}
use blu_gold.Chain.Params.{target}
use blu_gold.Chain.Block.{Block, header_bytes}
use blu_gold.Node.Data.{Node}
use blu_gold.Node.Transactions.{no_tip, candidate_panics, built, build_candidate}
use blu_gold.Miner.Midstate.{Midstate, build_midstate}
use blu_gold.Miner.Target.{target_words}
use blu_gold.Miner.Kernel.{ClCall, Device, search_nonces}
use blu_gold.Miner.Backend.{
  Backend, Miner, unsupported_header, search_failed, log_event, ensure_backend,
}
use blu_gold.Miner.Workers.{Waiter, waiting, closing, over, Move, new_round, make_moves}

-- The `select` of the GPU's loop: the end of the context, a new tip, or a search.
pub data Choice : Type 0 where
  context_done new_tip : Choice
  search_with : Device → Choice

pub record Turn : Type 0 where
  pub now : ℤ
  pub node : Node
  pub choices : List Choice
  pub moves : List Move

-- A round that has not come to its end, one that has, with the block for `SubmitSolution`, and a
-- panic: of `BuildCandidate`, or in a call on a GPU that is not there.
pub data RoundEnd : Type 0 where
  under_way died : RoundEnd
  ended_with : Option Block → RoundEnd

abbrev pub end_of : Waiter → RoundEnd
end_of waiting = under_way
end_of (closing b) = under_way
end_of (over b) = ended_with b

-- What a failed search does to the miner.
abbrev pub retire_gpu : ClCall → Miner → Miner
retire_gpu c m = log_event (search_failed c) (record m { gpu = none; active = some Backend.cpu })

-- `m.total.Add(uint64(m.gpuBatch))`
abbrev pub count_batch : Miner → Miner
count_batch m = record m { total = add_u64 m.total m.gpu_batch }

-- How `Run` ends. `running` has not come to its end.
pub data RunEnd : Type 0 where
  returned running panicked : RunEnd

-- A call of a method of a GPU that may not be there.
abbrev pub on_gpu {ℓ} : {A : Type ℓ} → Option Bytes → A → A → A
on_gpu none absent present = absent
on_gpu (some name) absent present = present

abbrev pub add_block : Option Block → List Block → List Block
add_block none bs = bs
add_block (some b) bs = b ∷ bs

-- The deferred close at the end of `Run`, for the GPU at its start.
unfoldable pub close_gpu : Option Bytes → Miner → RunEnd × Miner
close_gpu none m = (returned, m)
close_gpu (some name) m = on_gpu m.gpu (panicked, m) (returned, record m { gpu = none })

module _ ⦃c : Primitives⦄ where
  -- `mineOnceCPU`
  unfoldable pub mine_once_cpu : List Move → Block → ℕ → Miner → RoundEnd × Miner
  mine_once_cpu moves cand t m =
      let r = make_moves moves (new_round cand t m) in
      (end_of r.waiter, record m { nonce = r.nonce; total = r.total })

  -- What follows a search; `next` is the rest of the loop.
  unfoldable pub searched :
      List Move
      → Block
      → ℕ
      → (Miner → RoundEnd × Miner)
      → Result ClCall (Option ℕ)
      → Miner
      → RoundEnd × Miner
  searched moves cand t next (err call) m = mine_once_cpu moves cand t (retire_gpu call m)
  searched moves cand t next (ok none) m = next m
  searched moves cand t next (ok (some nonce)) m =
      (ended_with (some (record cand { extra_nonce = 0; nonce = nonce })), m)

  -- The loop of `mineOnceGPU`.
  unfoldable pub gpu_loop :
      List Choice → List Move → Block → ℕ → Midstate → ℕ → Miner → RoundEnd × Miner
  gpu_loop [] moves cand t mid base m = (under_way, m)
  gpu_loop (context_done ∷ rest) moves cand t mid base m = (ended_with none, m)
  gpu_loop (new_tip ∷ rest) moves cand t mid base m = (ended_with none, m)
  gpu_loop (search_with d ∷ rest) moves cand t mid base m =
      let next = λ (m' : Miner). gpu_loop rest moves cand t mid (add_u64 base m.gpu_batch) m' in
      on_gpu m.gpu (died, m)
        (searched moves cand t next (search_nonces d mid (target_words t) base m.gpu_batch)
          (count_batch m))

  -- `mineOnceGPU`
  unfoldable pub mine_once_gpu : List Choice → List Move → Block → ℕ → Miner → RoundEnd × Miner
  mine_once_gpu choices moves cand t m =
      elim (build_midstate (header_bytes (record cand { extra_nonce = 0 }))) [
        | none ↦ mine_once_cpu moves cand t (log_event unsupported_header m)
        | some mid ↦ gpu_loop choices moves cand t mid 0 m
      ]

  unfoldable pub mine_with :
      Option Backend → List Choice → List Move → Block → ℕ → Miner → RoundEnd × Miner
  mine_with (some Backend.gpu) choices moves cand t m = mine_once_gpu choices moves cand t m
  mine_with (some Backend.cpu) choices moves cand t m = mine_once_cpu moves cand t m
  mine_with (some Backend.auto) choices moves cand t m = mine_once_cpu moves cand t m
  mine_with none choices moves cand t m = mine_once_cpu moves cand t m

  -- `mineOnce`
  unfoldable pub mine_once : Turn → Miner → RoundEnd × Miner
  mine_once t m = elim (build_candidate m.addr t.now t.node) [
    | no_tip ↦ (ended_with none, m)
    | candidate_panics ↦ (died, m)
    | built cand ↦ mine_with m.active t.choices t.moves cand (target cand.difficulty) m
  ]

  -- What follows a round; `next` is the rest of the loop of `Run`.
  unfoldable pub after_round :
      (Miner → RunEnd × List Block × Miner) → RoundEnd × Miner → RunEnd × List Block × Miner
  after_round next (under_way, m) = (running, [], m)
  after_round next (died, m) = (panicked, [], m)
  after_round next (ended_with b, m) = let (e, bs, m') = next m in (e, add_block b bs, m')

  -- The loop of `Run` until the context ends, and the blocks that go to `SubmitSolution`. `opened`
  -- is the GPU at the start.
  unfoldable pub run_turns : Option Bytes → List Turn → Miner → RunEnd × List Block × Miner
  run_turns opened [] m = let (e, m') = close_gpu opened m in (e, [], m')
  run_turns opened (t ∷ ts) m = after_round (run_turns opened ts) (mine_once t m)

  -- `Run`
  unfoldable pub run_miner :
      (ℕ → ℕ) → Option Bytes → ℕ → List Device → List Turn → Miner → RunEnd × List Block × Miner
  run_miner per_second opened cpu_hashes ds ts m =
      let m' = ensure_backend per_second opened cpu_hashes ds m in run_turns m'.gpu ts m'
