-- ===== src/Miner/Rounds/Good.antt =====
-- One round of the miner: it submits no block that does not solve, and calls no GPU that is gone.
use blu_gold.Base.{
  ℕ, ◌/◌, ◌^◌, ◌<◌, ◌≤◌, ◌==◌, if◌then◌else◌, ◌≡◌, ◌≢◌, refl, ◌∙◌, sym, subst, false, Option, none,
  some, List, [], ◌∷◌, Bytes, All, add_u64, Result, ok, err, arith,
}
use native.Mathlib.Nat.{div-le_self}
use blu_gold.Crypto.{Address}
use blu_gold.Crypto.Interface.{Primitives}
use blu_gold.Chain.Params.{max_target, target}
use blu_gold.Chain.Block.{Block, header_bytes}
use blu_gold.Node.Data.{Entry}
use blu_gold.Miner.Midstate.{Midstate, build_midstate}
use blu_gold.Miner.Midstate.Hash.{sha256_of}
use blu_gold.Miner.Midstate.Header.{IsMinable, finish-header_bytes}
use blu_gold.Miner.Target.{target_words}
use blu_gold.Miner.Kernel.{ClCall, Device, search_nonces}
use blu_gold.Miner.Kernel.Answers.{RunsAll, Ends, Answer, search_nonces-Answer}
use blu_gold.Miner.Backend.{Backend, Miner}
use blu_gold.Miner.Workers.{Move, Waiter, waiting, closing, over}
use blu_gold.Miner.Rounds.{
  Choice, context_done, new_tip, search_with, Turn, RoundEnd, died, ended_with, end_of, on_gpu,
  retire_gpu, count_batch, mine_once_cpu, searched, gpu_loop, mine_once_gpu, mine_with,
}
use blu_gold.Miner.Rounds.Solved.{EndSolves, mine_once_cpu-EndSolves}
use blu_gold.Miner.Rounds.Minable.{IsDigest}
use blu_gold.Miner.Rounds.Healthy.{
  has_failure, healthy, retired, Keeps, Health-same, retire_gpu-Health,
}

-- A launch runs all its work items.
abbrev pub RunsChoice : ℕ → Choice → Type 0
RunsChoice count (search_with d) = RunsAll d count
RunsChoice count _ = Unit

-- The tip of the node has a hash of 32 bytes, and the GPU runs all work items.
pub record IsFit (count : ℕ) (t : Turn) : Type 0 where
  pub tip_digest : (tip : Entry) → t.node.tip ≡ some tip → IsDigest tip.hash
  pub runs : All (RunsChoice count) t.choices

target-fits : (d : ℕ) → target d < 2 ^ 256
unfolding target
target-fits d =
    let k : ℕ = if d == 0 then 1 else d in
    let low : max_target / k ≤ max_target = div-le_self max_target k in omega (arith, low)

pub on_gpu-there :
    {A : Type 0} (P : A → Type 0) (g : Option Bytes) (name : Bytes) (absent present : A)
    → g ≡ some name
    → P present
    → P (on_gpu g absent present)
on_gpu-there P none name absent present e h = cc
on_gpu-there P (some _) name absent present e h = h

module _ ⦃c : Primitives⦄ where
  -- A round keeps the miner, submits no block that does not solve, and does not call an absent GPU.
  pub record GoodRound (opened : Option Bytes) (addr : Address) (count : ℕ) (cand : Block) (t : ℕ)
      (x : RoundEnd × Miner) : Type 0 where
    pub solves : EndSolves cand t x.0
    pub keeps : Keeps opened addr count x.1
    pub alive : x.0 ≢ died

  end_of-ne-died : (w : Waiter) → end_of w ≢ died
  end_of-ne-died waiting e = cc
  end_of-ne-died (closing b) e = cc
  end_of-ne-died (over b) e = cc

  module _ (opened : Option Bytes) (addr : Address) (count : ℕ) (cand : Block) (t : ℕ)
      (moves : List Move) where
    abbrev Good : RoundEnd × Miner → Type 0
    Good x = GoodRound opened addr count cand t x

    cpu-Good : (m : Miner) → Keeps opened addr count m → Good (mine_once_cpu moves cand t m)
    cpu-Good m k = record {
      solves = mine_once_cpu-EndSolves cand t moves m;
      keeps =
          unfold mine_once_cpu in
          record {
            same_addr = k.same_addr;
            same_batch = k.same_batch;
            health = Health-same opened m _ refl refl refl k.health;
          };
      alive = unfold mine_once_cpu in end_of-ne-died _;
    }

    module _ (name : Bytes) (is_open : opened ≡ some name) where
      -- A miner whose GPU is there.
      record HasGpu (m : Miner) : Type 0 where
        there : m.gpu ≡ some name
        calm : has_failure m.log ≡ false
        same_addr : m.addr ≡ addr
        same_batch : m.gpu_batch ≡ count

      HasGpu-Keeps : (m : Miner) → HasGpu m → Keeps opened addr count m
      HasGpu-Keeps m h = record {
        same_addr = h.same_addr;
        same_batch = h.same_batch;
        health = healthy (h.there ∙ sym is_open) h.calm (λ _. (name, is_open));
      }

      stops-Good : (m : Miner) → HasGpu m → Good (ended_with none, m)
      stops-Good m h = record { solves = tt; keeps = HasGpu-Keeps m h; alive = λ e. cc }

      searched-Good :
          (base range : ℕ) (next : Miner → RoundEnd × Miner) (m : Miner) (d : Device)
          (r : Result ClCall (Option ℕ))
          → Ends d (Answer (record cand { extra_nonce = 0 }) t base range) r
          → ((m' : Miner) → HasGpu m' → Good (next m'))
          → HasGpu m
          → Good (searched moves cand t next r m)
      unfolding searched
      searched-Good base range next m d (err call) a rest h = cpu-Good (retire_gpu call m) (record {
        same_addr = h.same_addr;
        same_batch = h.same_batch;
        health = retire_gpu-Health opened name call m is_open;
      })
      searched-Good base range next m d (ok none) a rest h = rest m h
      searched-Good base range next m d (ok (some nonce)) (below, _) rest h = record {
        solves = record { extra_nonce = 0; nonce = nonce; same = refl; below = below };
        keeps = HasGpu-Keeps m h;
        alive = λ e. cc;
      }

      module _ (real : (b : Bytes) → c.sha256 b ≡ sha256_of b) (fits : t < 2 ^ 256)
          (minable : IsMinable (record cand { extra_nonce = 0 })) (mid : Midstate)
          (built : build_midstate (header_bytes (record cand { extra_nonce = 0 })) ≡ some mid) where
        gpu_loop-Good :
            (choices : List Choice) (base : ℕ) (m : Miner)
            → All (RunsChoice count) choices
            → HasGpu m
            → Good (gpu_loop choices moves cand t mid base m)
        unfolding gpu_loop
        gpu_loop-Good [] base m runs h = record {
          solves = tt;
          keeps = HasGpu-Keeps m h;
          alive = λ e. cc;
        }
        gpu_loop-Good (context_done ∷ rest) base m runs h = stops-Good m h
        gpu_loop-Good (new_tip ∷ rest) base m runs h = stops-Good m h
        gpu_loop-Good (search_with d ∷ rest) base m (run, runs) h =
            on_gpu-there (λ x. Good x) m.gpu name (died, m) _ h.there
              (searched-Good base m.gpu_batch
                (λ m'. gpu_loop rest moves cand t mid (add_u64 base m.gpu_batch) m') (count_batch m)
                d (search_nonces d mid (target_words t) base m.gpu_batch)
                (search_nonces-Answer real (record cand { extra_nonce = 0 }) minable t d base
                  m.gpu_batch mid fits (subst (λ j. RunsAll d j) (sym h.same_batch) run) built)
                (λ m' h'. gpu_loop-Good rest (add_u64 base m.gpu_batch) m' runs h')
                (record {
                  there = h.there;
                  calm = h.calm;
                  same_addr = h.same_addr;
                  same_batch = h.same_batch;
                }))

  module _ (real : (b : Bytes) → c.sha256 b ≡ sha256_of b) (opened : Option Bytes) (addr : Address)
      (count : ℕ) where
    module _ (choices : List Choice) (moves : List Move) (cand : Block)
        (runs : All (RunsChoice count) choices) (minable : IsMinable cand) where
      abbrev goal : ℕ
      goal = target cand.difficulty

      unsized : IsMinable (record cand { extra_nonce = 0 })
      unsized = record {
        prev_bytes = minable.prev_bytes;
        prev_length = minable.prev_length;
        miner_bytes = minable.miner_bytes;
        miner_length = minable.miner_length;
        root_bytes = minable.root_bytes;
        root_length = minable.root_length;
      }

      mine_once_gpu-Good :
          (name : Bytes) (is_open : opened ≡ some name) (m : Miner)
          → HasGpu opened addr count cand goal moves name is_open m
          → GoodRound opened addr count cand goal (mine_once_gpu choices moves cand goal m)
      unfolding mine_once_gpu
      mine_once_gpu-Good name is_open m h =
          let (mid, built, _) = finish-header_bytes (record cand { extra_nonce = 0 }) 0 unsized in
          rw (built, mine_once_gpu)
            (gpu_loop-Good opened addr count cand goal moves name is_open real
              (target-fits cand.difficulty) unsized mid built choices 0 m runs h)

      pub mine_with-Good :
          (a : Option Backend) (m : Miner)
          → m.active ≡ a
          → Keeps opened addr count m
          → GoodRound opened addr count cand goal (mine_with a choices moves cand goal m)
      unfolding mine_with
      mine_with-Good none m e k = cpu-Good opened addr count cand goal moves m k
      mine_with-Good (some Backend.cpu) m e k = cpu-Good opened addr count cand goal moves m k
      mine_with-Good (some Backend.auto) m e k = cpu-Good opened addr count cand goal moves m k
      mine_with-Good (some Backend.gpu) m e k = elim k.health [
        | healthy there calm is_gpu ↦
            let (name, is_open) = is_gpu e in
            mine_once_gpu-Good name is_open m (record {
              there = there ∙ is_open;
              calm = calm;
              same_addr = k.same_addr;
              same_batch = k.same_batch;
            })
        | retired _ _ _ on_cpu ↦ cc
      ]
