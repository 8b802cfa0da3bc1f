-- ===== src/Node/Ledger/Replay.antt =====
-- `replayLocked` computes the state of the chain, or finds a block whose chain has none.
use blu_gold.Base.{
  ◌%◌, ◌≡◌, refl, ap, ◌∙◌, ◌⊎◌, inl, inr, Bool-cases, none, some, List, [], ◌∷◌, ◌++◌, arith,
  Result, ok, err, ◌==◌, bytes_eq, bytes_eq→eq, if◌then◌else◌,
}
use mathlib.Core.List.{reverse, reverse-cons, append_assoc}
use blu_gold.Base.Dict.{Dict, lookup, insert, lookup-insert}
use blu_gold.Crypto.Interface.{Primitives}
use blu_gold.Chain.Params.{Params}
use blu_gold.Chain.Tx.{Hash}
use blu_gold.State.Monad.{State, Outcome, done, failed, panic}
use blu_gold.State.{apply_block}
use blu_gold.Node.Data.{Entry, Node, NodeError, checkpoint_interval}
use blu_gold.Node.Tree.{reject_subtree}
use blu_gold.Node.Switch.{checkpoint, crash, replay, replay_step}
use blu_gold.Node.Ledger.{finished, entry_state, chain_state}
use blu_gold.Node.Ledger.Paths.{path_in}
use blu_gold.Node.Ledger.Climb.{Up}

module _ ⦃c : Primitives⦄ where
  -- Every checkpoint is one of an entry of the tree, and holds the state of its chain.
  abbrev pub Marks : Params → Dict Entry → Dict State → Type 0
  Marks p blocks marks =
      (h : Hash) (s : State)
      → lookup h marks ≡ some s
      → (e : Entry) × (lookup h blocks ≡ some e) × (chain_state p (path_in blocks e) ≡ some s)

  -- The checkpoints behind a block.
  abbrev pub marked : Entry → State → Dict State → Dict State
  marked e s marks =
      if e.block.height % checkpoint_interval == 0 then insert e.hash s marks else marks

  pub checkpoint_lem :
      (e : Entry) (s : State) (n : Node)
      → checkpoint e s n ≡ record n { checkpoints = marked e s n.checkpoints }
  unfolding checkpoint
  checkpoint_lem e s n = ground arith

  pub Marks-marked :
      (p : Params) (blocks : Dict Entry) (marks : Dict State) (e : Entry) (s : State)
      → Marks p blocks marks
      → lookup e.hash blocks ≡ some e
      → chain_state p (path_in blocks e) ≡ some s
      → Marks p blocks (marked e s marks)
  Marks-marked p blocks marks e s m at made h s' k =
      elim (Bool-cases (e.block.height % checkpoint_interval == 0)) [
        | inr off ↦ m h s' (rw off at k)
        | inl on ↦ elim (Bool-cases (bytes_eq e.hash h)) [
          | inr other ↦ m h s' (ground (arith, k, on, other, lookup-insert e.hash h s marks))
          | inl same ↦
              let is : s ≡ s' = ground (arith, k, on, same, lookup-insert e.hash h s marks) in
              (e, ground (arith, at, bytes_eq→eq e.hash h same), made ∙ ap some is)
        ]
      ]

  -- What a replay of `xs` above `below` has done to `n`.
  abbrev pub Replayed : List Entry → List Entry → Node → Result NodeError State × Node → Type 0
  Replayed below xs n (ok s, m) =
      (marks : Dict State) × (m ≡ record n { checkpoints = marks })
      × Marks n.params n.blocks marks
      × (chain_state n.params (reverse xs ++ below) ≡ some s)
  Replayed below xs n (err x, m) =
      (marks : Dict State) × Marks n.params n.blocks marks
      × ((m ≡ crash (record n { checkpoints = marks }))
          ⊎ ((e : Entry) × (lookup e.hash n.blocks ≡ some e)
              × (chain_state n.params (path_in n.blocks e) ≡ none)
              × (m ≡ reject_subtree e (record n { checkpoints = marks }))))

  Replayed-cons :
      (below xs : List Entry) (e : Entry) (n : Node) (marks : Dict State)
      (q : Result NodeError State × Node)
      → Replayed (e ∷ below) xs (record n { checkpoints = marks }) q
      → Replayed below (e ∷ xs) n q
  Replayed-cons below xs e n marks (ok s, m) (ms, is, good, made) =
      let q : reverse (e ∷ xs) ++ below ≡ reverse xs ++ (e ∷ below) =
        simp (reverse-cons, append_assoc) in
      (ms, is, good, rw q made)
  Replayed-cons below xs e n marks (err x, m) h = h

  -- One block, for each outcome of `ApplyBlock`.
  step-Replayed :
      (below xs : List Entry) (e : Entry) (s : State) (n : Node) (q : Outcome (Unit {0}) × State)
      → lookup e.hash n.blocks ≡ some e
      → path_in n.blocks e ≡ e ∷ below
      → chain_state n.params (e ∷ below) ≡ finished q
      → Marks n.params n.blocks n.checkpoints
      → ((s' : State) (marks : Dict State)
          → chain_state n.params (e ∷ below) ≡ some s'
          → Marks n.params n.blocks marks
          → Replayed
              (e ∷ below)
              xs
              (record n { checkpoints = marks })
              (replay xs s' (record n { checkpoints = marks })))
      → Replayed below (e ∷ xs) n (replay_step (replay xs) e q n)
  unfolding replay_step finished
  step-Replayed below xs e s n (done _, s') at p made marks again = rw (checkpoint_lem e s' n) (
      Replayed-cons below xs e n (marked e s' n.checkpoints) _ (
        again s' (marked e s' n.checkpoints) made (
          Marks-marked n.params n.blocks n.checkpoints e s' marks at
            (ap (chain_state n.params) p ∙ made))))
  step-Replayed below xs e s n (failed x, s') at p made marks again =
      (n.checkpoints, marks, inr (e, at, ap (chain_state n.params) p ∙ made, refl))
  step-Replayed below xs e s n (panic, s') at p made marks again = (n.checkpoints, marks, inl refl)

  -- `replayLocked` of a row of entries above `below`, from the state of `below`.
  pub replay-Replayed :
      (xs below : List Entry) (s : State) (n : Node)
      → Up n.blocks below xs
      → chain_state n.params below ≡ some s
      → Marks n.params n.blocks n.checkpoints
      → Replayed below xs n (replay xs s n)
  unfolding replay
  replay-Replayed [] below s n u made marks = (n.checkpoints, refl, marks, made)
  replay-Replayed (e ∷ xs) below s n (at, p, high, u) made marks =
      elim (Bool-cases (e.block.height == 0)) [
        | inl z ↦ rw z (
            Replayed-cons below xs e n n.checkpoints _ (
              replay-Replayed xs (e ∷ below) s n u
                (unfold chain_state entry_state in ground (arith, made, z)) marks))
        | inr nz ↦ rw nz (
            step-Replayed below xs e s n (apply_block e.block n.params s) at p
              (unfold chain_state entry_state in ground (arith, made, nz)) marks
              (λ s' ms made' good.
                replay-Replayed xs (e ∷ below) s' (record n { checkpoints = ms }) u made' good))
      ]
