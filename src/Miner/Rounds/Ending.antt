-- ===== src/Miner/Rounds/Ending.antt =====
-- A run of the miner: what it submits, and how it ends.
use blu_gold.Base.{ℕ, ◌≡◌, ◌⊎◌, true, false, Option, some, List, [], ◌∷◌, Bytes, All}
use blu_gold.Crypto.{Address}
use blu_gold.Crypto.Interface.{Primitives}
use blu_gold.Chain.Params.{target}
use blu_gold.Chain.Block.{Block}
use blu_gold.Node.Transactions.{candidate_panics, built, build_candidate}
use blu_gold.Miner.Backend.{Backend, Miner}
use blu_gold.Miner.Rounds.{Turn, RoundEnd, died, ended_with, RunEnd, returned, panicked}
use blu_gold.Miner.Rounds.Solved.{IsSolution}
use blu_gold.Miner.Rounds.Healthy.{has_failure, Keeps}

module _ ⦃c : Primitives⦄ where
  module _ (addr : Address) where
    -- The candidate of a turn, with other nonces, whose hash is below the target of its difficulty.
    abbrev pub SolvesTurn : Block → Turn → Type 0
    SolvesTurn b t =
        (cand : Block) × (build_candidate addr t.now t.node ≡ built cand)
        × IsSolution cand (target cand.difficulty) b

    abbrev Submits : Turn → RoundEnd → Type 0
    Submits t (ended_with (some b)) = SolvesTurn b t
    Submits t _ = Unit

    abbrev pub SolvesOne : List Turn → Block → Type 0
    SolvesOne [] b = ⊥
    SolvesOne (t ∷ ts) b = SolvesTurn b t ⊎ SolvesOne ts b

    -- `BuildCandidate` panics in the round.
    abbrev pub Panics : Turn → Type 0
    Panics t = build_candidate addr t.now t.node ≡ candidate_panics

    abbrev pub PanicsOnce : List Turn → Type 0
    PanicsOnce [] = ⊥
    PanicsOnce (t ∷ ts) = Panics t ⊎ PanicsOnce ts

    -- The blocks that a run submits, and its end: a panic only where a search has failed or
    -- `BuildCandidate` has panicked, a return only where neither has.
    pub record EndsWell (ts : List Turn) (x : RunEnd × List Block × Miner) : Type 0 where
      pub submitted : All (SolvesOne ts) x.1
      pub panics : x.0 ≡ panicked → (has_failure x.2.log ≡ true) ⊎ PanicsOnce ts
      pub returns : x.0 ≡ returned → (has_failure x.2.log ≡ false) × All (λ t. ¬ Panics t) ts

  module _ (opened : Option Bytes) (addr : Address) where
    -- A round, for the turn that it was.
    record GoodTurn (count : ℕ) (t : Turn) (x : RoundEnd × Miner) : Type 0 where
      submits : Submits addr t x.0
      keeps : Keeps opened addr count x.1
      dies : x.0 ≡ died → Panics addr t
      must_die : Panics addr t → x.0 ≡ died
