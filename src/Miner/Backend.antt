-- ===== src/Miner/Backend.antt =====
-- internal/miner/backend.go, and the choice of a backend in internal/miner/miner.go. The handle of
-- a GPU is its name; `openGPU` and the clock are parameters.
use blu_gold.Base.{
  ℕ, ◌+◌, ◌-◌, ◌%◌, ◌^◌, ◌||◌, Option, none, some, List, [], ◌∷◌, ◌++◌, Bytes, bytes_eq, replicate,
  leb, if◌then◌else◌, add_u64, Result, ok, err,
}
use blu_gold.Base.Int.{ℤ, pos, leb_ℤ, ltb_ℤ, pos_part}
use blu_gold.Crypto.{Address}
use blu_gold.Chain.Block.{header_bytes, zero_hash}
use blu_gold.Miner.Midstate.{Midstate, build_midstate}
use blu_gold.Miner.Kernel.{ClCall, Device, search_nonces}

pub data Backend : Type 0 where
  auto cpu gpu : Backend

-- `Backend.String`
unfoldable pub backend_name : Backend → Bytes
backend_name Backend.cpu = 99 ∷ 112 ∷ 117 ∷ []
backend_name Backend.gpu = 103 ∷ 112 ∷ 117 ∷ []
backend_name Backend.auto = 97 ∷ 117 ∷ 116 ∷ 111 ∷ []

-- `ParseBackend`, for `strings.ToLower(strings.TrimSpace(s))`; nothing where it is unknown.
unfoldable pub parse_backend : (Bytes → Bytes) → Bytes → Option Backend
unfolding backend_name
parse_backend lower_trimmed s =
    let t = lower_trimmed s in
    if bytes_eq t [] || bytes_eq t (backend_name Backend.auto)
    then some Backend.auto
    else if bytes_eq t (backend_name Backend.cpu)
    then some Backend.cpu
    else if bytes_eq t (backend_name Backend.gpu)
    then some Backend.gpu
    else none

-- The lines of the log that tell of a backend.
pub data MinerEvent : Type 0 where
  uses_cpu uses_gpu unsupported_header : MinerEvent
  search_failed : ClCall → MinerEvent

-- `Miner`; `active` is none until `once` has run.
pub record Miner : Type 0 where
  pub addr : Address
  pub threads : ℕ
  pub min_pause : ℤ
  pub backend : Backend
  pub gpu_batch : ℕ
  pub active : Option Backend
  pub gpu : Option Bytes
  pub nonce : ℕ
  pub total : ℕ
  pub rate : ℕ
  pub log : List MinerEvent

abbrev pub log_event : MinerEvent → Miner → Miner
log_event e m = record m { log = m.log ++ (e ∷ []) }

-- `defaultGPUBatch`
abbrev pub default_gpu_batch : ℕ
default_gpu_batch = 2 ^ 20

-- `New`; the batch is cut to 32 bits.
unfoldable pub new_miner : Address → ℤ → ℤ → Backend → ℤ → Miner
new_miner addr threads min_pause backend gpu_batch = record {
  addr = addr;
  threads = if ltb_ℤ threads (pos 1) then 1 else pos_part threads;
  min_pause = if ltb_ℤ min_pause (pos 0) then pos 0 else min_pause;
  backend = backend;
  gpu_batch = (if leb_ℤ gpu_batch (pos 0) then default_gpu_batch else pos_part gpu_batch) % 2 ^ 32;
  active = none;
  gpu = none;
  nonce = 0;
  total = 0;
  rate = 0;
  log = [];
}

-- `benchmarkHeader`
unfoldable pub benchmark_header : Address → Bytes
benchmark_header addr = header_bytes (record {
  height = 0;
  prev_hash = zero_hash;
  time = pos 1;
  difficulty = 1;
  miner = addr;
  extra_nonce = 0;
  merkle_root = zero_hash;
  nonce = 0;
  txs = [];
})

-- What ends a benchmark of the GPU early.
pub data BenchError : Type 0 where
  not_usable : BenchError
  call_failed : ClCall → BenchError

-- The loop of `benchmarkGPU`, with the dispatches that start before the deadline: the nonces that
-- were tried.
unfoldable pub bench_loop : Midstate → ℕ → ℕ → ℕ → List Device → Result BenchError ℕ
bench_loop mid count base total [] = ok total
bench_loop mid count base total (d ∷ ds) = elim (search_nonces d mid (replicate 8 0) base count) [
  | err c ↦ err (call_failed c)
  | ok (some nonce) ↦ ok total
  | ok none ↦ bench_loop mid count (add_u64 base count) (add_u64 total count) ds
]

-- `benchmarkGPU`; `per_second` is the division by the duration, in floats.
unfoldable pub benchmark_gpu : (ℕ → ℕ) → List Device → Miner → Result BenchError ℕ
benchmark_gpu per_second ds m = elim (build_midstate (benchmark_header m.addr)) [
  | none ↦ err not_usable
  | some mid ↦ elim (bench_loop mid m.gpu_batch 0 0 ds) [
    | err e ↦ err e
    | ok total ↦ ok (per_second total)
  ]
]

abbrev pub takes_cpu : Miner → Miner
takes_cpu m = log_event uses_cpu (record m { active = some Backend.cpu })

abbrev pub takes_gpu : Bytes → Miner → Miner
takes_gpu name m = log_event uses_gpu (record m { active = some Backend.gpu; gpu = some name })

-- The faster of the two, where the benchmark of the GPU ends.
unfoldable pub faster : Bytes → ℕ → Result BenchError ℕ → Miner → Miner
faster name cpu_rate (err e) m = takes_cpu m
faster name cpu_rate (ok gpu_rate) m =
    if leb gpu_rate cpu_rate then takes_cpu m else takes_gpu name m

-- `resolveBackend`, for what `openGPU` gives, the hashes that the CPU makes in a benchmark, and the
-- dispatches of the GPU.
unfoldable pub resolve_backend : (ℕ → ℕ) → Option Bytes → ℕ → List Device → Backend → Miner → Miner
resolve_backend per_second opened cpu_hashes ds Backend.cpu m = takes_cpu m
resolve_backend per_second none cpu_hashes ds Backend.gpu m = takes_cpu m
resolve_backend per_second (some name) cpu_hashes ds Backend.gpu m = takes_gpu name m
resolve_backend per_second none cpu_hashes ds Backend.auto m = takes_cpu m
resolve_backend per_second (some name) cpu_hashes ds Backend.auto m =
    faster name (per_second cpu_hashes) (benchmark_gpu per_second ds m) m

-- `EnsureBackend`
unfoldable pub ensure_backend : (ℕ → ℕ) → Option Bytes → ℕ → List Device → Miner → Miner
ensure_backend per_second opened cpu_hashes ds m = elim m.active [
  | some b ↦ m
  | none ↦ resolve_backend per_second opened cpu_hashes ds m.backend m
]

-- A tick of `trackLoop`; `prev` is the total at the tick before.
unfoldable pub track_tick : ℕ → Miner → ℕ × Miner
track_tick prev m = (m.total, record m { rate = (m.total + 2 ^ 64 - prev) % 2 ^ 64 })
