-- ===== src/Node/Ledger/Moving.antt =====
-- A switch to another tip keeps the node on the state of its chain.
use blu_gold.Base.{
  ◌≡◌, refl, ap, ◌∙◌, subst, inl, inr, true, false, Bool-cases, Option, none, some, [], ◌∷◌, arith,
  Result, err, ◌==◌, bytes_eq, bytes_eq→eq, if◌then◌else◌,
}
use mathlib.Core.List.{reverse, reverse-reverse, append-nil}
use blu_gold.Base.Dict.{lookup}
use blu_gold.Crypto.Interface.{Primitives}
use blu_gold.State.Monad.{State, Outcome, done, failed, panic}
use blu_gold.State.{apply_block}
use blu_gold.Node.Data.{Entry, Node, NodeError, no_common_ancestor}
use blu_gold.Node.Tree.{path_to_genesis, tail_after}
use blu_gold.Node.Switch.{
  base_state, start_height, first_chain, extend_chain, reorganised, reorganise, rolled_back,
  first_common, replay, switch_chain,
}
use blu_gold.Node.Ledger.{finished, entry_state, index_of, chain_state}
use blu_gold.Node.Ledger.Paths.{path_in, Tree, path-Child}
use blu_gold.Node.Ledger.Climb.{path-Up}
use blu_gold.Node.Ledger.Replay.{Marks-marked, checkpoint_lem, replay-Replayed}
use blu_gold.Node.Ledger.Follows.{Active, Follows, reject_subtree-Follows}
use blu_gold.Node.Ledger.Switching.{
  drop_confirmed-Follows, publish-Follows, first_chain-Follows, reorganised-Follows,
}
use blu_gold.Node.Ledger.Rebasing.{base-Replayed}

module _ ⦃c : Primitives⦄ where
  -- A child of the tip stands on its path.
  child_path :
      (n : Node) (tip e : Entry)
      → Tree n.params n.blocks
      → lookup tip.hash n.blocks ≡ some tip
      → lookup e.hash n.blocks ≡ some e
      → bytes_eq e.block.prev_hash tip.hash ≡ true
      → (path_in n.blocks e ≡ e ∷ path_in n.blocks tip) × ((e.block.height == 0) ≡ false)
  child_path n tip e t at_tip at same = elim (t.shape e.hash e at) [
    | inl (low, root) ↦
        absurd (cc (at_tip, root, t.no_zero, bytes_eq→eq e.block.prev_hash tip.hash same))
    | inr (d, ch) ↦
        let is : d ≡ tip =
          ground (arith, ch.parent, at_tip, bytes_eq→eq e.block.prev_hash tip.hash same) in
        (
          path-Child t e.hash e d at ch ∙ ap (λ (x : Entry). e ∷ path_in n.blocks x) is,
          ground (arith, ch.above),
        )
  ]

  extend_chain-Follows :
      (n : Node) (tip e : Entry) (q : Outcome (Unit {0}) × State)
      → Follows n
      → Active n.params n.blocks n.state n.chain_heights tip
      → lookup e.hash n.blocks ≡ some e
      → bytes_eq e.block.prev_hash tip.hash ≡ true
      → apply_block e.block n.params n.state ≡ q
      → Follows (extend_chain e q n).1
  unfolding extend_chain finished index_of
  extend_chain-Follows n tip e q f a at same is =
      let (path, nz) = child_path n tip e f.tree a.listed at same in
      let made : chain_state n.params (path_in n.blocks e) ≡ finished q =
        ap (chain_state n.params) path
        ∙ (unfold chain_state entry_state in ground (arith, a.made, nz, is)) in
      outcome q made path
    where
      outcome :
          (r : Outcome (Unit {0}) × State)
          → chain_state n.params (path_in n.blocks e) ≡ finished r
          → path_in n.blocks e ≡ e ∷ path_in n.blocks tip
          → Follows (extend_chain e r n).1
      outcome (done _, s) made path = publish-Follows e.block _ (
          drop_confirmed-Follows e _ (
            rw (checkpoint_lem e s n) (record {
              tree = f.tree;
              marks_right = Marks-marked n.params n.blocks n.checkpoints e s f.marks_right at made;
              current = λ t q.
                  let eq : e ≡ t = cc in
                  subst (Active n.params n.blocks s _) eq (record {
                    listed = at;
                    made = made;
                    indexed = λ h. rw path (ground (arith, a.indexed h));
                  });
            })))
      outcome (failed x, s) made path = reject_subtree-Follows e n f at made
      outcome (panic, s) made path = f

  reorganise-Follows :
      (tip e : Entry) (n : Node)
      → Follows n
      → lookup e.hash n.blocks ≡ some e
      → Follows (reorganise tip e n).1
  unfolding reorganise path_to_genesis
  reorganise-Follows tip e n f at =
      at_fork (first_common (reverse (path_in n.blocks e)) (path_in n.blocks tip))
    where
      at_fork :
          (o : Option Entry)
          → Follows
              (elim o as (λ z. Result NodeError (Unit {0}) × Node) [
                | none ↦ (err no_common_ancestor, n)
                | some fork ↦
                    reorganised e
                      (reverse (path_in n.blocks e))
                      (rolled_back fork.block.height (path_in n.blocks tip))
                      (replay
                        (tail_after
                          (start_height (reverse (path_in n.blocks e)) n)
                          (reverse (path_in n.blocks e)))
                        (base_state (reverse (path_in n.blocks e)) n)
                        n)
              ]).1
      at_fork none = f
      at_fork (some fork) =
          let (below, xs, whole, r) = base-Replayed n e f at in
          reorganised-Follows e _ below xs n _ f at whole r

  -- `switchChainLocked` to an entry of the tree.
  pub switch_chain-Follows :
      (e : Entry) (n : Node)
      → Follows n
      → lookup e.hash n.blocks ≡ some e
      → Follows (switch_chain e n).1
  unfolding switch_chain path_to_genesis chain_state
  switch_chain-Follows e n f at = from n.tip (λ t is. f.current t is)
    where
      from :
          (o : Option Entry)
          → ((t : Entry) → o ≡ some t → Active n.params n.blocks n.state n.chain_heights t)
          → Follows
              (elim o as (λ z. Result NodeError (Unit {0}) × Node) [
                | none ↦
                    first_chain e
                      (reverse (path_in n.blocks e))
                      (replay (reverse (path_in n.blocks e)) [] n)
                | some tip ↦
                    if bytes_eq e.block.prev_hash tip.hash
                    then extend_chain e (apply_block e.block n.params n.state) n
                    else reorganise tip e n
              ]).1
      from none cur =
          first_chain-Follows e [] (reverse (path_in n.blocks e)) n _ f at
            (simp (reverse-reverse, append-nil))
            (replay-Replayed (reverse (path_in n.blocks e)) [] [] n (path-Up f.tree e.hash e at)
              refl f.marks_right)
      from (some tip) cur = elim (Bool-cases (bytes_eq e.block.prev_hash tip.hash)) [
        | inl child ↦ rw child (extend_chain-Follows n tip e _ f (cur tip refl) at child refl)
        | inr far ↦ rw far (reorganise-Follows tip e n f at)
      ]
