-- ===== src/Node/Ledger/Climb.antt =====
-- A path from the genesis block upwards, as `replayLocked` walks it.
use blu_gold.Base.{
  ℕ, zero, suc, ◌≤◌, ◌<◌, ◌≡◌, refl, ap, ◌∙◌, ◌⊎◌, inl, inr, true, Bool-cases, Option, some, List,
  [], ◌∷◌, ◌++◌, arith, length,
}
use mathlib.Core.List.{reverse, reverse-cons, reverse-reverse, append-nil, append_assoc}
use blu_gold.Base.Dict.{Dict, lookup, contains}
use blu_gold.Crypto.Interface.{Primitives}
use blu_gold.Chain.Params.{Params}
use blu_gold.Chain.Tx.{Hash}
use blu_gold.Node.Data.{Entry, Node}
use blu_gold.Node.Tree.{tail_after}
use blu_gold.Node.Switch.{last_checkpoint}
use blu_gold.Node.Ledger.Paths.{path_in, Tree, path_root, path-Child}

-- The entries stand on `below`, newest first, each on the one in front.
abbrev pub Up : Dict Entry → List Entry → List Entry → Type 0
Up blocks below [] = Unit {0}
Up blocks below (e ∷ xs) =
    (lookup e.hash blocks ≡ some e)
    × (path_in blocks e ≡ e ∷ below)
    × (e.block.height ≡ length below)
    × Up blocks (e ∷ below) xs

Up-snoc :
    (blocks : Dict Entry) (below xs : List Entry) (t : Entry)
    → Up blocks below xs
    → lookup t.hash blocks ≡ some t
    → path_in blocks t ≡ t ∷ (reverse xs ++ below)
    → t.block.height ≡ length (reverse xs ++ below)
    → Up blocks below (xs ++ (t ∷ []))
Up-snoc blocks below [] t u at p h = (at, p, h, tt)
Up-snoc blocks below (e ∷ xs) t (at_e, p_e, h_e, u) at p h =
    let q : reverse (e ∷ xs) ++ below ≡ reverse xs ++ (e ∷ below) =
      simp (reverse-cons, append_assoc) in
    (at_e, p_e, h_e, Up-snoc blocks (e ∷ below) xs t u at (rw q at p) (rw q at h))

-- The entries of the path that are at or above a height.
pub tail_after-all :
    (blocks : Dict Entry) (k : ℕ) (below xs : List Entry)
    → Up blocks below xs
    → k ≤ length below
    → tail_after k xs ≡ xs
unfolding tail_after
tail_after-all blocks k below [] u h = refl
tail_after-all blocks k below (e ∷ xs) (at, p, high, u) h =
    ground (arith, tail_after-all blocks k (e ∷ below) xs u (omega arith))

-- A row of entries stops at `e`, and `tail` is what stands above.
pub record Cut (blocks : Dict Entry) (below xs : List Entry) (e : Entry) (tail : List Entry)
    : Type 0 where
  pub listed : lookup e.hash blocks ≡ some e
  pub under : List Entry
  pub path : path_in blocks e ≡ e ∷ under
  pub higher : Up blocks (e ∷ under) tail
  pub rest : tail_after (suc e.block.height) xs ≡ tail
  pub whole : reverse xs ++ below ≡ reverse tail ++ (e ∷ under)

-- The last entry with a checkpoint, and what `tailAfter` leaves above it.
abbrev pub CutAt :
    Dict Entry → List Entry → List Entry → Option Entry → Option Entry → Node → Type 0
CutAt blocks below xs best last n =
    (last ≡ best)
    ⊎ ((e : Entry) × (tail : List Entry) × (last ≡ some e)
        × (contains e.hash n.checkpoints ≡ true)
        × (length below ≤ e.block.height)
        × Cut blocks below xs e tail)

reverse-shift :
    (x : Entry) (xs below : List Entry) → reverse (x ∷ xs) ++ below ≡ reverse xs ++ (x ∷ below)
reverse-shift x xs below = simp (reverse-cons, append_assoc)

-- An entry below the cut is left out.
Cut-cons :
    (blocks : Dict Entry) (below : List Entry) (x e : Entry) (xs tail : List Entry)
    → x.block.height ≤ e.block.height
    → Cut blocks (x ∷ below) xs e tail
    → Cut blocks below (x ∷ xs) e tail
unfolding tail_after
Cut-cons blocks below x e xs tail low c = record {
  listed = c.listed;
  under = c.under;
  path = c.path;
  higher = c.higher;
  rest = ground (arith, c.rest);
  whole = reverse-shift x xs below ∙ c.whole;
}

pub last_checkpoint-CutAt :
    (blocks : Dict Entry) (n : Node) (below xs : List Entry) (best : Option Entry)
    → Up blocks below xs
    → CutAt blocks below xs best (last_checkpoint best xs n) n
unfolding last_checkpoint
last_checkpoint-CutAt blocks n below [] best u = inl refl
last_checkpoint-CutAt blocks n below (x ∷ xs) best (at, p, high, u) =
    elim (Bool-cases (contains x.hash n.checkpoints)) [
      | inl there ↦ rw there (
          inr (elim (last_checkpoint-CutAt blocks n (x ∷ below) xs (some x) u) [
            | inl same ↦ (x, xs, same, there, omega (arith, high), cut_here)
            | inr (e, tail, q, marked, low, c) ↦ (
              e,
              tail,
              q,
              marked,
              omega arith,
              Cut-cons blocks below x e xs tail (omega (arith, high)) c,
            )
          ]))
      | inr bare ↦ rw bare (elim (last_checkpoint-CutAt blocks n (x ∷ below) xs best u) [
        | inl same ↦ inl same
        | inr (e, tail, q, marked, low, c) ↦ inr (
          e,
          tail,
          q,
          marked,
          omega arith,
          Cut-cons blocks below x e xs tail (omega (arith, high)) c,
        )
      ])
    ]
  where
    cut_here : Cut blocks below (x ∷ xs) x xs
    cut_here = record {
      listed = at;
      under = below;
      path = p;
      higher = u;
      rest =
          unfold tail_after in
          ground (
            arith,
            tail_after-all blocks (suc x.block.height) (x ∷ below) xs u (omega (arith, high)),
          );
      whole = reverse-shift x xs below;
    }

module _ ⦃c : Primitives⦄ where
  module _ {p : Params} {blocks : Dict Entry} (t : Tree p blocks) where
    path_steps :
        (k : ℕ) (h : Hash) (e : Entry)
        → lookup h blocks ≡ some e
        → e.block.height < k
        → (length (path_in blocks e) ≡ suc e.block.height)
          × Up blocks [] (reverse (path_in blocks e))
    path_steps zero h e at small = absurd (omega arith)
    path_steps (suc k) h e at small = elim (t.shape h e at) [
      | inl root ↦
          let q = path_root t h e at root in
          rw q (omega (arith, root.0), (at_own h e at, q, root.0, tt))
      | inr (d, ch) ↦
          let q = path-Child t h e d at ch in
          let (long, below) =
            path_steps k e.block.prev_hash d ch.parent (omega (arith, ch.above)) in
          let again : reverse (reverse (path_in blocks d)) ++ [] ≡ path_in blocks d =
            simp (reverse-reverse, append-nil) in
          rw (q, reverse-cons)
            (
              omega (arith, long, ch.above),
              Up-snoc blocks [] (reverse (path_in blocks d)) e below (at_own h e at) (rw again q)
                  (rw again (omega (arith, long, ch.above))),
            )
    ]
      where
        at_own : (h : Hash) (e : Entry) → lookup h blocks ≡ some e → lookup e.hash blocks ≡ some e
        at_own h e at = ap (λ g. lookup g blocks) (t.keyed h e at) ∙ at

    -- The path to an entry of the tree, from the genesis block.
    pub path-Up :
        (h : Hash) (e : Entry)
        → lookup h blocks ≡ some e
        → Up blocks [] (reverse (path_in blocks e))
    path-Up h e at = (path_steps (suc e.block.height) h e at (omega arith)).1
