-- ===== src/Miner/Rounds/Healthy.antt =====
-- What a miner has of its GPU: the one that was opened, until a search fails.
use blu_gold.Base.{
  ℕ, ◌≡◌, refl, ap, ◌∙◌, sym, Bool, true, false, ◌||◌, Option, none, some, List, [], ◌∷◌, ◌++◌,
  Bytes, leb, Bool-cases, inl, inr, Result, ok, err, arith,
}
use blu_gold.Base.Int.{ℤ}
use blu_gold.Crypto.{Address}
use blu_gold.Miner.Kernel.{ClCall, Device}
use blu_gold.Miner.Backend.{
  Backend, Miner, BenchError, MinerEvent, search_failed, new_miner, takes_cpu, takes_gpu,
  benchmark_gpu, faster, resolve_backend, ensure_backend,
}
use blu_gold.Miner.Rounds.{retire_gpu}

abbrev pub is_failure : MinerEvent → Bool
is_failure (search_failed c) = true
is_failure _ = false

-- The log tells of a search that failed.
unfoldable pub has_failure : List MinerEvent → Bool
has_failure [] = false
has_failure (e ∷ es) = is_failure e || has_failure es

has_failure-append :
    (es : List MinerEvent) (e : MinerEvent)
    → has_failure (es ++ (e ∷ [])) ≡ (has_failure es || is_failure e)
unfolding has_failure
has_failure-append [] e = ground arith
has_failure-append (d ∷ es) e = ground (arith, has_failure-append es e)

pub data Health (opened : Option Bytes) (m : Miner) : Type 0 where
  healthy :
      m.gpu ≡ opened
      → has_failure m.log ≡ false
      → (m.active ≡ some Backend.gpu → (name : Bytes) × (opened ≡ some name))
      → Health opened m
  retired :
      ((name : Bytes) × (opened ≡ some name))
      → m.gpu ≡ none
      → has_failure m.log ≡ true
      → m.active ≡ some Backend.cpu
      → Health opened m

-- A miner with its address and batch, and its GPU as it is.
pub record Keeps (opened : Option Bytes) (addr : Address) (count : ℕ) (m : Miner) : Type 0 where
  pub same_addr : m.addr ≡ addr
  pub same_batch : m.gpu_batch ≡ count
  pub health : Health opened m

-- What leaves the backend and the log alone.
pub Health-same :
    (opened : Option Bytes) (m m' : Miner)
    → m'.gpu ≡ m.gpu
    → m'.log ≡ m.log
    → m'.active ≡ m.active
    → Health opened m
    → Health opened m'
Health-same opened m m' g l a (healthy h f k) =
    healthy (g ∙ h) (ap has_failure l ∙ f) (λ e. k (sym a ∙ e))
Health-same opened m m' g l a (retired o h f k) = retired o (g ∙ h) (ap has_failure l ∙ f) (a ∙ k)

pub retire_gpu-Health :
    (opened : Option Bytes) (name : Bytes) (c : ClCall) (m : Miner)
    → opened ≡ some name
    → Health opened (retire_gpu c m)
retire_gpu-Health opened name c m o =
    retired (name, o) refl (ground (arith, has_failure-append m.log (search_failed c))) refl

takes_cpu-Keeps :
    (m : Miner)
    → m.gpu ≡ none
    → m.log ≡ []
    → Keeps (takes_cpu m).gpu m.addr m.gpu_batch (takes_cpu m)
unfolding has_failure
takes_cpu-Keeps m g l = record {
  same_addr = refl;
  same_batch = refl;
  health = healthy refl (rw l refl) (λ e. cc);
}

takes_gpu-Keeps :
    (name : Bytes) (m : Miner)
    → m.log ≡ []
    → Keeps (takes_gpu name m).gpu m.addr m.gpu_batch (takes_gpu name m)
unfolding has_failure
takes_gpu-Keeps name m l = record {
  same_addr = refl;
  same_batch = refl;
  health = healthy refl (rw l refl) (λ e. (name, refl));
}

faster-Keeps :
    (name : Bytes) (cpu_rate : ℕ) (r : Result BenchError ℕ) (m : Miner)
    → m.gpu ≡ none
    → m.log ≡ []
    → Keeps (faster name cpu_rate r m).gpu m.addr m.gpu_batch (faster name cpu_rate r m)
unfolding faster
faster-Keeps name cpu_rate (err e) m g l = takes_cpu-Keeps m g l
faster-Keeps name cpu_rate (ok rate) m g l = elim (Bool-cases (leb rate cpu_rate)) [
  | inl slower ↦ rw slower (takes_cpu-Keeps m g l)
  | inr quicker ↦ rw quicker (takes_gpu-Keeps name m l)
]

module _ (per_second : ℕ → ℕ) (opened : Option Bytes) (cpu_hashes : ℕ) (ds : List Device) where
  resolve_backend-Keeps :
      (b : Backend) (o : Option Bytes) (m : Miner)
      → m.gpu ≡ none
      → m.log ≡ []
      → Keeps
          (resolve_backend per_second o cpu_hashes ds b m).gpu
          m.addr
          m.gpu_batch
          (resolve_backend per_second o cpu_hashes ds b m)
  unfolding resolve_backend
  resolve_backend-Keeps Backend.cpu o m g l = takes_cpu-Keeps m g l
  resolve_backend-Keeps Backend.gpu none m g l = takes_cpu-Keeps m g l
  resolve_backend-Keeps Backend.gpu (some name) m g l = takes_gpu-Keeps name m l
  resolve_backend-Keeps Backend.auto none m g l = takes_cpu-Keeps m g l
  resolve_backend-Keeps Backend.auto (some name) m g l =
      faster-Keeps name (per_second cpu_hashes) (benchmark_gpu per_second ds m) m g l

  -- A new miner has its GPU where `EnsureBackend` opened one.
  pub ensure_backend-Keeps :
      (addr : Address) (threads min_pause : ℤ) (b : Backend) (gpu_batch : ℤ)
      → let m = new_miner addr threads min_pause b gpu_batch in
        let m' = ensure_backend per_second opened cpu_hashes ds m in
        Keeps m'.gpu addr m.gpu_batch m'
  unfolding new_miner ensure_backend
  ensure_backend-Keeps addr threads min_pause b gpu_batch =
      resolve_backend-Keeps b opened (new_miner addr threads min_pause b gpu_batch) refl refl
