-- ===== src/Node/Tree/Pruned.antt =====
-- Trees from which subtrees have been taken away.
use blu_gold.Base.{
  ◌≡◌, refl, ◌⊎◌, inl, inr, true, false, Bool-cases, Option-cases, none, some, [], ◌∷◌, All, arith,
  bytes_eq, bytes_eq→eq, bytes_eq_sym, Bytes,
}
use blu_gold.Base.Dict.{Dict, lookup, erase, lookup-erase}
use blu_gold.Chain.Tx.{Hash}
use blu_gold.Node.Data.{Entry}
use blu_gold.Node.Tree.{children}

-- Every entry stands under its own hash.
abbrev pub Keyed : Dict Entry → Type 0
Keyed blocks = (h : Hash) (e : Entry) → lookup h blocks ≡ some e → e.hash ≡ h

-- `after` has lost entries of `before`, and with each of them its children.
pub record Prunes (before after : Dict Entry) : Type 0 where
  pub fewer : (h : Hash) (e : Entry) → lookup h after ≡ some e → lookup h before ≡ some e
  pub rooted :
      (h : Hash) (e p : Entry)
      → lookup h after ≡ some e
      → lookup e.block.prev_hash before ≡ some p
      → lookup e.block.prev_hash after ≡ some p

pub Prunes-refl : (b : Dict Entry) → Prunes b b
Prunes-refl b = record { fewer = λ h e k. k; rooted = λ h e p k l. l }

pub Prunes-trans : (a b d : Dict Entry) → Prunes a b → Prunes b d → Prunes a d
Prunes-trans a b d p q = record {
  fewer = λ h e k. p.fewer h e (q.fewer h e k);
  rooted = λ h e x k l. q.rooted h e x k (p.rooted h e x (q.fewer h e k) l);
}

-- What is gone stays gone.
pub gone : (a b : Dict Entry) (h : Hash) → Prunes a b → lookup h a ≡ none → lookup h b ≡ none
gone a b h p n = elim (Option-cases (lookup h b)) [
  | inl q ↦ q
  | inr (e, q) ↦ absurd (cc (n, p.fewer h e q))
]

-- An entry of the tree, or one that is gone, and its children with it.
abbrev pub Ready : Entry → Dict Entry → Type 0
Ready x blocks =
    (lookup x.hash blocks ≡ some x)
    ⊎ ((lookup x.hash blocks ≡ none)
        × ((h : Hash) (e : Entry)
            → lookup h blocks ≡ some e
            → bytes_eq e.block.prev_hash x.hash ≡ false))

-- A second entry is still ready when a first subtree is gone.
pub Ready-Prunes : (x : Entry) (a b : Dict Entry) → Prunes a b → Ready x a → Ready x b
Ready-Prunes x a b p (inr (away, childless)) =
    inr (gone a b x.hash p away, λ h e k. childless h e (p.fewer h e k))
Ready-Prunes x a b p (inl at) = elim (Option-cases (lookup x.hash b)) [
  | inr (e, q) ↦ inl (ground (arith, at, q, p.fewer x.hash e q))
  | inl q ↦ inr (
    q,
    λ h e k. elim (Bool-cases (bytes_eq e.block.prev_hash x.hash)) [
      | inr other ↦ other
      | inl same ↦
          let is = bytes_eq→eq e.block.prev_hash x.hash same in
          absurd (cc (q, is, p.rooted h e x k (rw is at)))
    ],
  )
]

abbrev pub IsChild : Entry → Entry → Type 0
IsChild x e = bytes_eq e.block.prev_hash x.hash ≡ true

-- The children that are listed, where every entry is found under its hash.
pub children-Ready :
    (x : Entry) (d blocks : Dict Entry)
    → All (λ (p : Bytes × Entry). lookup p.1.hash blocks ≡ some p.1) d
    → All (λ e. Ready e blocks × IsChild x e) (children x.hash d)
unfolding children
children-Ready x [] blocks a = tt
children-Ready x ((k, e) ∷ d) blocks (at, a) =
    elim (Bool-cases (bytes_eq e.block.prev_hash x.hash)) [
      | inl child ↦ rw child ((inl at, child), children-Ready x d blocks a)
      | inr other ↦ rw other (children-Ready x d blocks a)
    ]

pub children_none :
    (x : Entry) (d : Dict Entry)
    → All (λ (p : Bytes × Entry). bytes_eq p.1.block.prev_hash x.hash ≡ false) d
    → children x.hash d ≡ []
unfolding children
children_none x [] a = refl
children_none x ((k, e) ∷ d) (other, a) = rw other (children_none x d a)

-- An entry that is found, with this parent, is among the children; so what holds of all
-- children holds of it.
pub child_found :
    (P : Entry → Type 0) (h k : Hash) (e : Entry) (d : Dict Entry)
    → All P (children h d)
    → lookup k d ≡ some e
    → bytes_eq e.block.prev_hash h ≡ true
    → P e
unfolding children lookup
child_found P h k e [] a at child = absurd (cc at)
child_found P h k e ((j, x) ∷ d) a at child = elim (Bool-cases (bytes_eq j k)) [
  | inl same ↦ let is : x ≡ e = ground (arith, at, same) in (rw (is, child) at a).0
  | inr other ↦ elim (Bool-cases (bytes_eq x.block.prev_hash h)) [
    | inl sibling ↦ child_found P h k e d (rw sibling at a).1 (rw other at at) child
    | inr stranger ↦ child_found P h k e d (rw stranger at a) (rw other at at) child
  ]
]

-- `e` stands in the subtree of `x`.
pub data Below (blocks : Dict Entry) (x : Entry) : Entry → Type 0 where
  here : Below blocks x x
  up :
      (e p : Entry) → lookup e.block.prev_hash blocks ≡ some p → Below blocks x p → Below blocks x e

pub Below-fewer :
    (a b : Dict Entry) (x : Entry) {e : Entry} → Prunes a b → Below b x e → Below a x e
Below-fewer a b x p here = here
Below-fewer a b x p (up e d q h) = up e d (p.fewer _ d q) (Below-fewer a b x p h)

pub Below-child :
    (b : Dict Entry) (x y : Entry) {e : Entry}
    → lookup y.block.prev_hash b ≡ some x
    → Below b y e
    → Below b x e
Below-child b x y at here = up y x at here
Below-child b x y at (up e d q h) = up e d q (Below-child b x y at h)

pub erase-Prunes_childless :
    (x : Entry) (b : Dict Entry)
    → ((h : Hash) (e : Entry) → lookup h b ≡ some e → bytes_eq e.block.prev_hash x.hash ≡ false)
    → Prunes b (erase x.hash b)
erase-Prunes_childless x b empty = record {
  fewer = λ h e k. ground (arith, k, lookup-erase x.hash h b);
  rooted = λ h e p k l. ground (
    arith,
    l,
    lookup-erase x.hash e.block.prev_hash b,
    empty h e (ground (arith, k, lookup-erase x.hash h b)),
    bytes_eq_sym e.block.prev_hash x.hash,
  );
}
