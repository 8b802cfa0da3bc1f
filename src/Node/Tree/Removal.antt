-- ===== src/Node/Tree/Removal.antt =====
-- `rejectSubtreeLocked` takes a whole subtree away, and nothing that is left loses its parent.
use blu_gold.Base.{
  ℕ, zero, suc, ◌≤◌, ◌<◌, ◌≡◌, sym, ap, subst, ◌∙◌, inl, inr, true, false, Bool-cases, Option-cases,
  none, some, List, [], ◌∷◌, All, arith, length, bytes_eq, bytes_eq→eq, bytes_eq_refl, bytes_eq_sym,
}
use mathlib.Core.List.{foldl}
use blu_gold.Base.Dict.{Dict, lookup, erase, lookup-erase}
use blu_gold.Base.Dict.Unique.{Unique, Unique-erase, length-erase-le, length-erase-lt, listed-found}
use blu_gold.Chain.Tx.{Hash}
use blu_gold.Node.Tree.Pruned.{
  Keyed, Prunes, Prunes-refl, Prunes-trans, gone, Ready, Ready-Prunes, IsChild, children-Ready,
  children_none, child_found, Below, here, up, Below-fewer, Below-child, erase-Prunes_childless,
}
use blu_gold.Node.Data.{Entry, Node}
use blu_gold.Node.Tree.{children, reject_one, reject_from, reject_subtree}

-- What one call has done.
pub record Removes (x : Entry) (before after : Dict Entry) : Type 0 where
  pub prunes : Prunes before after
  pub removed : lookup x.hash after ≡ none
  pub unique : Unique after
  pub shorter : length after ≤ length before
  pub below :
      (h : Hash) (e : Entry) → lookup h before ≡ some e → lookup h after ≡ none → Below before x e

-- The same for a row of calls, for children of `x`.
record RemovesAll (x : Entry) (cs : List Entry) (before after : Dict Entry) : Type 0 where
  prunes : Prunes before after
  removed : All (λ e. lookup e.hash after ≡ none) cs
  unique : Unique after
  shorter : length after ≤ length before
  below :
      (h : Hash) (e : Entry)
      → lookup h before ≡ some e
      → lookup h after ≡ none
      → (y : Entry) × IsChild x y × Below before y e

-- A call that removes subtrees, in trees of fewer than `fuel` entries.
abbrev Removing : ℕ → (Entry → Node → Node) → Type 0
Removing fuel f =
    (x : Entry) (m : Node)
    → Unique m.blocks
    → Keyed m.blocks
    → Ready x m.blocks
    → length m.blocks < fuel
    → Removes x m.blocks (f x m).blocks

Keyed-Prunes : (a b : Dict Entry) → Prunes a b → Keyed a → Keyed b
Keyed-Prunes a b p k h e q = k h e (p.fewer h e q)

ChildReady-Prunes :
    (x : Entry) (a b : Dict Entry) (cs : List Entry)
    → Prunes a b
    → All (λ e. Ready e a × IsChild x e) cs
    → All (λ e. Ready e b × IsChild x e) cs
ChildReady-Prunes x a b [] p h = tt
ChildReady-Prunes x a b (e ∷ cs) p ((r, c), h) =
    ((Ready-Prunes e a b p r, c), ChildReady-Prunes x a b cs p h)

fold-Removes :
    (fuel : ℕ) (f : Entry → Node → Node)
    → Removing fuel f
    → (x : Entry) (cs : List Entry) (m : Node) → Unique m.blocks
    → Keyed m.blocks
    → All (λ e. Ready e m.blocks × IsChild x e) cs
    → length m.blocks < fuel
    → RemovesAll x cs m.blocks (foldl (λ n c. f c n) m cs).blocks
fold-Removes fuel f r x [] m u k h small = record {
  prunes = Prunes-refl m.blocks;
  removed = tt;
  unique = u;
  shorter = omega arith;
  below = λ g e at no. absurd (cc (at, no));
}
fold-Removes fuel f r x (y ∷ cs) m u k ((ready, child), h) small =
    let one = r y m u k ready small in
    let rest =
      fold-Removes fuel f r x cs (f y m) one.unique (Keyed-Prunes _ _ one.prunes k)
        (ChildReady-Prunes x _ _ cs one.prunes h) (omega (arith, one.shorter)) in
    record {
      prunes = Prunes-trans _ _ _ one.prunes rest.prunes;
      removed = (gone _ _ y.hash rest.prunes one.removed, rest.removed);
      unique = rest.unique;
      shorter = omega (arith, one.shorter, rest.shorter);
      below = λ g e at no. elim (Option-cases (lookup g (f y m).blocks)) [
        | inl first ↦ (y, child, one.below g e at first)
        | inr (d, later) ↦
            let is : d ≡ e = ground (arith, at, later, one.prunes.fewer g d later) in
            let (z, c, b) = rest.below g d later no in
            (z, c, rw (sym is) (Below-fewer _ _ z one.prunes b))
      ];
    }

-- A call for an entry with no children takes at most the entry away.
Removes-childless :
    (x : Entry) (m : Node)
    → Unique m.blocks
    → Keyed m.blocks
    → ((h : Hash) (e : Entry)
        → lookup h m.blocks ≡ some e
        → bytes_eq e.block.prev_hash x.hash ≡ false)
    → lookup x.hash m.blocks ≡ none
    → Removes x m.blocks (erase x.hash m.blocks)
Removes-childless x m u k empty away = record {
  prunes = erase-Prunes_childless x m.blocks empty;
  removed = ground (arith, lookup-erase x.hash x.hash m.blocks, bytes_eq_refl x.hash);
  unique = Unique-erase x.hash m.blocks u;
  shorter = length-erase-le x.hash m.blocks;
  below = λ h e at left.
      absurd (ground (arith, at, left, away, lookup-erase x.hash h m.blocks, bytes_eq→eq x.hash h));
}

-- A call for an entry of the tree, when its children are gone.
Removes-parent :
    (x : Entry) (before after : Dict Entry)
    → Unique before
    → Keyed before
    → lookup x.hash before ≡ some x
    → RemovesAll x (children x.hash (erase x.hash before)) (erase x.hash before) after
    → Removes x before after
Removes-parent x before after u k at all = record {
  prunes = record {
    fewer = λ h e q. fewer_erased h e (all.prunes.fewer h e q);
    rooted = λ h e p q l. elim (Bool-cases (bytes_eq e.block.prev_hash x.hash)) [
      | inl child ↦ absurd (childless h e q child)
      | inr other ↦ all.prunes.rooted h e p q (
          ground (
            arith,
            l,
            lookup-erase x.hash e.block.prev_hash before,
            other,
            bytes_eq_sym e.block.prev_hash x.hash,
          ))
    ];
  };
  removed =
      gone (erase x.hash before) after x.hash all.prunes
        (ground (arith, lookup-erase x.hash x.hash before, bytes_eq_refl x.hash));
  unique = all.unique;
  shorter = omega (arith, all.shorter, length-erase-le x.hash before);
  below = λ h e q left. elim (Bool-cases (bytes_eq x.hash h)) [
    | inl same ↦
        let is : x ≡ e = ground (arith, at, q, bytes_eq→eq x.hash h same) in
        subst (λ d. Below before x d) is here
    | inr other ↦
        let (y, child, b) =
          all.below h e (ground (arith, q, other, lookup-erase x.hash h before)) left in
        Below-child before x y (rw (bytes_eq→eq y.block.prev_hash x.hash child) at) (Below-erased b)
  ];
}
  where
    fewer_erased :
        (h : Hash) (e : Entry) → lookup h (erase x.hash before) ≡ some e → lookup h before ≡ some e
    fewer_erased h e q = ground (arith, q, lookup-erase x.hash h before)

    childless :
        (h : Hash) (e : Entry)
        → lookup h after ≡ some e
        → bytes_eq e.block.prev_hash x.hash ≡ true
        → ⊥
    childless h e q child =
        let at_h = all.prunes.fewer h e q in
        let away =
          child_found (λ d. lookup d.hash after ≡ none) x.hash h e (erase x.hash before) all.removed
            at_h child in
        cc (away, q, k h e (fewer_erased h e at_h))

    Below-erased : {y e : Entry} → Below (erase x.hash before) y e → Below before y e
    Below-erased here = here
    Below-erased (up e d q b) = up e d (fewer_erased e.block.prev_hash d q) (Below-erased b)

reject_from-Removes : (fuel : ℕ) → Removing fuel (reject_from fuel)
unfolding reject_from
reject_from-Removes zero x m u k r small = absurd (omega arith)
reject_from-Removes (suc fuel) x m u k (inl at) small = Removes-parent x m.blocks _ u k at (
    fold-Removes fuel (reject_from fuel) (reject_from-Removes fuel) x _ (reject_one x m)
      (Unique-erase x.hash m.blocks u) erased_keyed
      (children-Ready x _ _ (
        listed-found (λ h e. lookup e.hash (erase x.hash m.blocks) ≡ some e) _
          (Unique-erase x.hash m.blocks u)
          (λ h e q. ap (λ g. lookup g (erase x.hash m.blocks)) (erased_keyed h e q) ∙ q)))
      (omega (arith, length-erase-lt x.hash m.blocks x at)))
  where
    erased_keyed : Keyed (erase x.hash m.blocks)
    erased_keyed h e q = k h e (ground (arith, q, lookup-erase x.hash h m.blocks))
reject_from-Removes (suc fuel) x m u k (inr (away, empty)) small =
    rw no_children (Removes-childless x m u k empty away)
  where
    no_children : children x.hash (erase x.hash m.blocks) ≡ []
    no_children = children_none x _ (
        listed-found (λ h e. bytes_eq e.block.prev_hash x.hash ≡ false) _
          (Unique-erase x.hash m.blocks u)
          (λ h e q. empty h e (ground (arith, q, lookup-erase x.hash h m.blocks))))

-- `rejectSubtreeLocked` of an entry of a tree whose entries stand under their own hashes, each
-- once: the entry is gone, every entry that is gone is of its subtree, what is left was there
-- before and keeps its parent, so that the whole subtree is gone, and no entry stands twice.
pub reject_subtree-Removes :
    (x : Entry) (n : Node)
    → Unique n.blocks
    → Keyed n.blocks
    → lookup x.hash n.blocks ≡ some x
    → Removes x n.blocks (reject_subtree x n).blocks
unfolding reject_subtree
reject_subtree-Removes x n u k at =
    reject_from-Removes (suc (length n.blocks)) x n u k (inl at) (omega arith)
