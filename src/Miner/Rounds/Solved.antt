-- ===== src/Miner/Rounds/Solved.antt =====
-- A block that a round of the CPU submits is the candidate with other nonces, and solves it.
use blu_gold.Base.{
  ℕ, ◌≡◌, refl, Bool, true, false, Bool-cases, inl, inr, Option, none, some, List, [], ◌∷◌, add_u64,
  if◌then◌else◌,
}
use blu_gold.Crypto.Interface.{Primitives}
use blu_gold.Chain.Block.{Block}
use blu_gold.Miner.Target.{hash_below}
use blu_gold.Miner.Backend.{Miner}
use blu_gold.Miner.Workers.{
  Phase, checking, hashing, ended, Waiter, waiting, closing, over, Round, Move, work, receive,
  tip_changed, cancel, all_done, phase_of, all_ended, offer, receive_found, give_up, wait_done,
  next_try, new_round, try_nonce, work_on, make_move, make_moves,
}
use blu_gold.Miner.Rounds.{RoundEnd, ended_with, end_of, mine_once_cpu}

module _ ⦃c : Primitives⦄ where
  -- The candidate with other nonces, whose hash is below the target.
  pub record IsSolution (cand : Block) (t : ℕ) (b : Block) : Type 0 where
    pub extra_nonce : ℕ
    pub nonce : ℕ
    pub same : b ≡ record cand { extra_nonce = extra_nonce; nonce = nonce }
    pub below : hash_below t b ≡ true

  abbrev pub MaySolve : Block → ℕ → Option Block → Type 0
  MaySolve cand t none = Unit
  MaySolve cand t (some b) = IsSolution cand t b

  abbrev pub EndSolves : Block → ℕ → RoundEnd → Type 0
  EndSolves cand t (ended_with b) = MaySolve cand t b
  EndSolves cand t _ = Unit

  abbrev HoldsSolution : Block → ℕ → Waiter → Type 0
  HoldsSolution cand t waiting = Unit
  HoldsSolution cand t (closing b) = MaySolve cand t b
  HoldsSolution cand t (over b) = MaySolve cand t b

  record IsSound (cand : Block) (t : ℕ) (r : Round) : Type 0 where
    same_cand : r.cand ≡ cand
    same_target : r.target ≡ t
    in_channel : MaySolve cand t r.found
    in_hand : HoldsSolution cand t r.waiter

  offer-MaySolve :
      (cand : Block) (t : ℕ) (b : Block) (found : Option Block) (below : Bool)
      → (below ≡ true → IsSolution cand t b)
      → MaySolve cand t found
      → MaySolve cand t (if below then offer b found else found)
  offer-MaySolve cand t b none true h k = h refl
  offer-MaySolve cand t b (some a) true h k = k
  offer-MaySolve cand t b found false h k = k

  module _ (cand : Block) (t : ℕ) where
    work_on-IsSound :
        (id : ℕ) (p : Phase) (r : Round) → IsSound cand t r → IsSound cand t (work_on id p r)
    unfolding work_on try_nonce
    work_on-IsSound id ended r s = s
    work_on-IsSound id checking r s = record {
      same_cand = s.same_cand;
      same_target = s.same_target;
      in_channel = s.in_channel;
      in_hand = s.in_hand;
    }
    work_on-IsSound id hashing r s = record {
      same_cand = s.same_cand;
      same_target = s.same_target;
      in_channel =
          offer-MaySolve cand t (next_try id r) r.found (hash_below r.target (next_try id r))
            (λ h. record {
              extra_nonce = id;
              nonce = add_u64 r.nonce 1;
              same = rw s.same_cand refl;
              below = rw (← s.same_target) h;
            })
            s.in_channel;
      in_hand = s.in_hand;
    }

    receive_found-IsSound :
        (found : Option Block) (w : Waiter) (r : Round)
        → MaySolve cand t found
        → IsSound cand t r
        → IsSound cand t (receive_found found w r)
    unfolding receive_found
    receive_found-IsSound (some b) waiting r h s = record {
      same_cand = s.same_cand;
      same_target = s.same_target;
      in_channel = tt;
      in_hand = h;
    }
    receive_found-IsSound (some b) (closing _) r h s = s
    receive_found-IsSound (some b) (over _) r h s = s
    receive_found-IsSound none w r h s = s

    give_up-IsSound : (w : Waiter) (r : Round) → IsSound cand t r → IsSound cand t (give_up w r)
    unfolding give_up
    give_up-IsSound waiting r s = record {
      same_cand = s.same_cand;
      same_target = s.same_target;
      in_channel = s.in_channel;
      in_hand = tt;
    }
    give_up-IsSound (closing _) r s = s
    give_up-IsSound (over _) r s = s

    wait_done-IsSound :
        (w : Waiter) (r : Round)
        → HoldsSolution cand t w
        → IsSound cand t r
        → IsSound cand t (wait_done w r)
    unfolding wait_done
    wait_done-IsSound waiting r h s = s
    wait_done-IsSound (over _) r h s = s
    wait_done-IsSound (closing b) r h s = elim (Bool-cases (all_ended r.workers)) [
      | inl done ↦ rw done (record {
        same_cand = s.same_cand;
        same_target = s.same_target;
        in_channel = s.in_channel;
        in_hand = h;
      })
      | inr busy ↦ rw busy s
    ]

    make_move-IsSound : (v : Move) (r : Round) → IsSound cand t r → IsSound cand t (make_move v r)
    unfolding make_move
    make_move-IsSound (work id) r s = work_on-IsSound id (phase_of id r.workers) r s
    make_move-IsSound receive r s = receive_found-IsSound r.found r.waiter r s.in_channel s
    make_move-IsSound tip_changed r s = give_up-IsSound r.waiter r s
    make_move-IsSound cancel r s = give_up-IsSound r.waiter r s
    make_move-IsSound all_done r s = wait_done-IsSound r.waiter r s.in_hand s

    make_moves-IsSound :
        (vs : List Move) (r : Round) → IsSound cand t r → IsSound cand t (make_moves vs r)
    unfolding make_moves
    make_moves-IsSound [] r s = s
    make_moves-IsSound (v ∷ vs) r s =
        make_moves-IsSound vs (make_move v r) (make_move-IsSound v r s)

    end_of-EndSolves : (w : Waiter) → HoldsSolution cand t w → EndSolves cand t (end_of w)
    end_of-EndSolves waiting h = tt
    end_of-EndSolves (closing b) h = tt
    end_of-EndSolves (over b) h = h

    pub mine_once_cpu-EndSolves :
        (vs : List Move) (m : Miner) → EndSolves cand t (mine_once_cpu vs cand t m).0
    unfolding mine_once_cpu new_round
    mine_once_cpu-EndSolves vs m =
        end_of-EndSolves (make_moves vs (new_round cand t m)).waiter
          (make_moves-IsSound vs (new_round cand t m) (record {
            same_cand = refl;
            same_target = refl;
            in_channel = tt;
            in_hand = tt;
          })).in_hand
