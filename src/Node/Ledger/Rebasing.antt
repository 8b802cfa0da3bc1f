-- ===== src/Node/Ledger/Rebasing.antt =====
-- A replay starts from the last checkpoint of the new path.
use blu_gold.Base.{
  suc, ◌≡◌, refl, sym, ap, ◌∙◌, inl, inr, true, false, Option, none, some, List, [], ◌∷◌, ◌++◌,
  arith,
}
use mathlib.Core.List.{reverse, reverse-reverse, append-nil}
use blu_gold.Base.Dict.{lookup, contains}
use blu_gold.Crypto.Interface.{Primitives}
use blu_gold.Chain.Tx.{Hash}
use blu_gold.State.Monad.{State}
use blu_gold.Node.Data.{Entry, Node}
use blu_gold.Node.Tree.{tail_after}
use blu_gold.Node.Switch.{last_checkpoint, base_state, start_height, replay}
use blu_gold.Node.Ledger.{chain_state}
use blu_gold.Node.Ledger.Paths.{path_in}
use blu_gold.Node.Ledger.Climb.{Up, path-Up, tail_after-all, last_checkpoint-CutAt}
use blu_gold.Node.Ledger.Replay.{Replayed, replay-Replayed}
use blu_gold.Node.Ledger.Follows.{Follows}

found :
    (o : Option State) → elim o [ none ↦ false | some _ ↦ true ] ≡ true → (s : State) × (o ≡ some s)
found none q = cc
found (some s) q = (s, refl)

start_height-none :
    (path : List Entry) (n : Node) → last_checkpoint none path n ≡ none → start_height path n ≡ 0
unfolding start_height
start_height-none path n q = ground (arith, q)

start_height-some :
    (path : List Entry) (n : Node) (e : Entry)
    → last_checkpoint none path n ≡ some e
    → start_height path n ≡ suc e.block.height
unfolding start_height
start_height-some path n e q = ground (arith, q)

base_state-none :
    (path : List Entry) (n : Node) → last_checkpoint none path n ≡ none → base_state path n ≡ []
unfolding base_state
base_state-none path n q = ground (arith, q)

base_state-some :
    (path : List Entry) (n : Node) (e : Entry) (s : State)
    → last_checkpoint none path n ≡ some e
    → lookup e.hash n.checkpoints ≡ some s
    → base_state path n ≡ s
unfolding base_state
base_state-some path n e s q found = ground (arith, q, found)

module _ ⦃c : Primitives⦄ where
  -- The replay that a reorganisation starts, from the last checkpoint of the path.
  pub base-Replayed :
      (n : Node) (e : Entry)
      → Follows n
      → lookup e.hash n.blocks ≡ some e
      → (below : List Entry) × (xs : List Entry) × (reverse xs ++ below ≡ path_in n.blocks e)
        × Replayed below xs n (
            replay
              (tail_after
                (start_height (reverse (path_in n.blocks e)) n)
                (reverse (path_in n.blocks e)))
              (base_state (reverse (path_in n.blocks e)) n)
              n)
  unfolding chain_state
  base-Replayed n e f at = elim (last_checkpoint-CutAt n.blocks n [] up_path none up) [
    | inl bare ↦ (
      [],
      up_path,
      back_again,
      rw
          (
            start_height-none up_path n bare,
            base_state-none up_path n bare,
            tail_after-all n.blocks 0 [] up_path up (omega arith),
          )
          (replay-Replayed up_path [] [] n up refl f.marks_right),
    )
    | inr (e', tail, last, marked_there, low, cut) ↦
        let (s, found) = stored e'.hash marked_there in
        (
          e' ∷ cut.under,
          tail,
          sym cut.whole ∙ back_again,
          rw
              (
                start_height-some up_path n e' last,
                base_state-some up_path n e' s last found,
                cut.rest,
              )
              (replay-Replayed tail (e' ∷ cut.under) s n cut.higher
                (ap (chain_state n.params) (sym cut.path) ∙ marked_state e' s found cut.listed)
                f.marks_right),
        )
  ]
    where
      up_path : List Entry
      up_path = reverse (path_in n.blocks e)

      up : Up n.blocks [] up_path
      up = path-Up f.tree e.hash e at

      back_again : reverse up_path ++ [] ≡ path_in n.blocks e
      back_again = simp (reverse-reverse, append-nil)

      marked_state :
          (d : Entry) (s : State)
          → lookup d.hash n.checkpoints ≡ some s
          → lookup d.hash n.blocks ≡ some d
          → chain_state n.params (path_in n.blocks d) ≡ some s
      marked_state d s q listed =
          let (e', at', made) = f.marks_right d.hash s q in
          let is : e' ≡ d = ground (arith, at', listed) in rw is at made

      stored :
          (h : Hash)
          → contains h n.checkpoints ≡ true
          → (s : State) × (lookup h n.checkpoints ≡ some s)
      stored h q = found (lookup h n.checkpoints) q
