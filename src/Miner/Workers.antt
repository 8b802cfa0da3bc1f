-- ===== src/Miner/Workers.antt =====
-- `mineOnceCPU` of internal/miner/miner.go. A worker is at its check of `stop` or at its hash, and
-- what the workers and the goroutine that waits for them do comes as a list of moves, in the order
-- in which they are made. A move that is not open changes nothing.
use blu_gold.Base.{
  ℕ, zero, suc, Bool, true, false, Option, none, some, List, [], ◌∷◌, replicate, if◌then◌else◌,
  add_u64,
}
use blu_gold.Crypto.Interface.{Primitives}
use blu_gold.Chain.Block.{Block}
use blu_gold.Miner.Target.{hash_below}
use blu_gold.Miner.Backend.{Miner}

pub data Phase : Type 0 where
  checking hashing ended : Phase

-- The goroutine of `mineOnceCPU`: at its `select`, at `wg.Wait()` behind `close(stop)`, and at the
-- end, each with the block that it submits.
pub data Waiter : Type 0 where
  waiting : Waiter
  closing over : Option Block → Waiter

-- `workers` has the workers by their `id`; `found` is the channel, which holds one block.
pub record Round : Type 0 where
  pub cand : Block
  pub target : ℕ
  pub workers : List Phase
  pub found : Option Block
  pub stop : Bool
  pub waiter : Waiter
  pub nonce : ℕ
  pub total : ℕ

pub data Move : Type 0 where
  work : ℕ → Move
  receive tip_changed cancel all_done : Move

unfoldable pub phase_of : ℕ → List Phase → Phase
phase_of i [] = ended
phase_of zero (p ∷ ps) = p
phase_of (suc i) (p ∷ ps) = phase_of i ps

unfoldable pub set_phase : ℕ → Phase → List Phase → List Phase
set_phase i q [] = []
set_phase zero q (p ∷ ps) = q ∷ ps
set_phase (suc i) q (p ∷ ps) = p ∷ set_phase i q ps

unfoldable pub all_ended : List Phase → Bool
all_ended [] = true
all_ended (ended ∷ ps) = all_ended ps
all_ended (checking ∷ ps) = false
all_ended (hashing ∷ ps) = false

-- A full channel drops the block.
abbrev pub offer : Block → Option Block → Option Block
offer b none = some b
offer b (some a) = some a

-- `case blk := <-found`
unfoldable pub receive_found : Option Block → Waiter → Round → Round
receive_found (some b) waiting r = record r { found = none; stop = true; waiter = closing (some b) }
receive_found (some b) w r = r
receive_found none w r = r

-- The other two cases of the `select`.
unfoldable pub give_up : Waiter → Round → Round
give_up waiting r = record r { stop = true; waiter = closing none }
give_up w r = r

-- The end of `wg.Wait()`.
unfoldable pub wait_done : Waiter → Round → Round
wait_done (closing b) r = if all_ended r.workers then record r { waiter = over b } else r
wait_done waiting r = r
wait_done (over b) r = r

-- The block that worker `id` hashes next.
abbrev pub next_try : ℕ → Round → Block
next_try id r = record r.cand { extra_nonce = id; nonce = add_u64 r.nonce 1 }

unfoldable pub new_round : Block → ℕ → Miner → Round
new_round cand target m = record {
  cand = cand;
  target = target;
  workers = replicate m.threads checking;
  found = none;
  stop = false;
  waiter = waiting;
  nonce = m.nonce;
  total = m.total;
}

module _ ⦃c : Primitives⦄ where
  -- One hash of worker `id`.
  unfoldable pub try_nonce : ℕ → Round → Round
  try_nonce id r =
      let b = next_try id r in
      let below = hash_below r.target b in
      record r {
        nonce = add_u64 r.nonce 1;
        total = add_u64 r.total 1;
        found = if below then offer b r.found else r.found;
        workers = set_phase id (if below then ended else checking) r.workers;
      }

  unfoldable pub work_on : ℕ → Phase → Round → Round
  work_on id ended r = r
  work_on id checking r = record r {
    workers = set_phase id (if r.stop then ended else hashing) r.workers;
  }
  work_on id hashing r = try_nonce id r

  unfoldable pub make_move : Move → Round → Round
  make_move (work id) r = work_on id (phase_of id r.workers) r
  make_move receive r = receive_found r.found r.waiter r
  make_move tip_changed r = give_up r.waiter r
  make_move cancel r = give_up r.waiter r
  make_move all_done r = wait_done r.waiter r

  unfoldable pub make_moves : List Move → Round → Round
  make_moves [] r = r
  make_moves (v ∷ vs) r = make_moves vs (make_move v r)
