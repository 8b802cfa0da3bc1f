-- ===== src/Node/Ledger/Follows.antt =====
-- The node's state is the state of its active chain.
use blu_gold.Base.{ℕ, ◌≡◌, sym, ap, ◌∙◌, subst, inl, inr, Option, Option-cases, none, some, arith}
use blu_gold.Base.Dict.{Dict, lookup}
use blu_gold.Crypto.Interface.{Primitives}
use blu_gold.Chain.Params.{Params}
use blu_gold.Chain.Tx.{Hash}
use blu_gold.State.Monad.{State}
use blu_gold.Node.Data.{Entry, Node}
use blu_gold.Node.Tree.{reject_subtree}
use blu_gold.Node.Tree.Removal.{Removes, reject_subtree-Removes}
use blu_gold.Node.Ledger.{index_of, chain_state}
use blu_gold.Node.Ledger.Paths.{path_in, Tree}
use blu_gold.Node.Ledger.Replay.{Marks}
use blu_gold.Node.Ledger.Pruning.{path-Prunes, Below-none, Tree-Removes, reject_subtree-SameButTree}

module _ ⦃c : Primitives⦄ where
  -- The tip, and what the node has for its chain.
  pub record Active (p : Params) (blocks : Dict Entry) (s : State) (heights : ℕ → Option Hash)
      (t : Entry) : Type 0 where
    pub listed : lookup t.hash blocks ≡ some t
    pub made : chain_state p (path_in blocks t) ≡ some s
    pub indexed : (h : ℕ) → heights h ≡ index_of (path_in blocks t) h

  pub record Chain (p : Params) (blocks : Dict Entry) (marks : Dict State) (tip : Option Entry)
      (s : State) (heights : ℕ → Option Hash) : Type 0 where
    pub tree : Tree p blocks
    pub marks_right : Marks p blocks marks
    pub current : (t : Entry) → tip ≡ some t → Active p blocks s heights t

  -- The tree is one; every checkpoint holds the state of its chain; and where there is a tip, the
  -- node's state is what the blocks of its chain make of no accounts, and the index by height is
  -- that chain's.
  abbrev pub Follows : Node → Type 0
  Follows n = Chain n.params n.blocks n.checkpoints n.tip n.state n.chain_heights

  -- Where a block has no state, the rest of the tree is still followed.
  pub reject_subtree-Follows :
      (x : Entry) (n : Node)
      → Follows n
      → lookup x.hash n.blocks ≡ some x
      → chain_state n.params (path_in n.blocks x) ≡ none
      → Follows (reject_subtree x n)
  reject_subtree-Follows x n f at bad =
      subst Follows (sym (reject_subtree-SameButTree x n)) (record {
        tree = Tree-Removes f.tree x after r bad;
        marks_right = λ h s k.
            let (e, l, made) = f.marks_right h s k in
            let left = still h e s l made in
            (
              e,
              left,
              ap (chain_state n.params) (path-Prunes n.blocks after h e r.prunes left) ∙ made,
            );
        current = λ t is.
            let a = f.current t is in
            let left = still t.hash t n.state a.listed a.made in
            let same = path-Prunes n.blocks after t.hash t r.prunes left in
            record {
              listed = left;
              made = ap (chain_state n.params) same ∙ a.made;
              indexed = λ h. a.indexed h ∙ ap (λ l. index_of l h) (sym same);
            };
      })
    where
      after : Dict Entry
      after = (reject_subtree x n).blocks

      r : Removes x n.blocks after
      r = reject_subtree-Removes x n f.tree.unique f.tree.keyed at

      still :
          (h : Hash) (t : Entry) (s : State)
          → lookup h n.blocks ≡ some t
          → chain_state n.params (path_in n.blocks t) ≡ some s
          → lookup h after ≡ some t
      still h t s listed made = elim (Option-cases (lookup h after)) [
        | inr (t', q) ↦ ground (arith, q, listed, r.prunes.fewer h t' q)
        | inl lost ↦
            let below = r.below h t listed lost in
            absurd (cc (Below-none f.tree x h below listed bad, made))
      ]
