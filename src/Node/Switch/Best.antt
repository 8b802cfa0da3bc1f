-- ===== src/Node/Switch/Best.antt =====
-- The tip that is chosen: no entry of the tree is better.
use blu_gold.Base.{
  ◌≡◌, ◌⊎◌, refl, inl, inr, true, false, Option, ◌<◌, none, some, [], ◌∷◌, Bytes, bytes_lt, arith,
  All, Bool-cases,
}
use native.Mathlib.Decide.{dec_lt}
use blu_gold.Base.Dict.{Dict}
use blu_gold.Node.Data.{Entry, Node, is_rejected}
use blu_gold.Node.Switch.{beats, best_from}

bytes_lt_irrefl : (a : Bytes) → bytes_lt a a ≡ false
unfolding bytes_lt
bytes_lt_irrefl [] = refl
bytes_lt_irrefl (x ∷ a) = ground (arith, bytes_lt_irrefl a)

-- What is not below `b` is not below anything that is below `b`.
bytes_lt-weaken :
    (a b d : Bytes) → bytes_lt a b ≡ false → bytes_lt d b ≡ true → bytes_lt a d ≡ false
unfolding bytes_lt
bytes_lt-weaken [] [] [] h k = cc
bytes_lt-weaken [] [] (z ∷ d) h k = cc
bytes_lt-weaken [] (y ∷ b) d h k = cc
bytes_lt-weaken (x ∷ a) b [] h k = refl
bytes_lt-weaken (x ∷ a) [] (z ∷ d) h k = cc
bytes_lt-weaken (x ∷ a) (y ∷ b) (z ∷ d) h k = ground (arith, bytes_lt-weaken a b d)

beats-weaken : (a b d : Entry) → beats a b ≡ false → beats d b ≡ true → beats a d ≡ false
unfolding beats
beats-weaken a b d h k = ground (arith, bytes_lt-weaken a.hash b.hash d.hash)

beats_irrefl : (a : Entry) → beats a a ≡ false
unfolding beats
beats_irrefl a = ground (arith, bytes_lt_irrefl a.hash)

-- No entry that is not rejected beats `best`.
abbrev Unbeaten : Node → Entry → Dict Entry → Type 0
Unbeaten n best blocks =
    All (λ (p : Bytes × Entry). (is_rejected p.1.hash n ≡ true) ⊎ (beats p.1 best ≡ false)) blocks

-- The entry stands in the tree.
abbrev pub Holds : Entry → Dict Entry → Type 0
Holds d [] = ⊥
Holds d ((k, e) ∷ blocks) = (e ≡ d) ⊎ Holds d blocks

-- What the scan from a best entry so far makes of it.
record Scans (n : Node) (blocks : Dict Entry) (b d : Entry) : Type 0 where
  unbeaten : Unbeaten n d blocks
  still : (x : Entry) → beats x b ≡ false → beats x d ≡ false
  found : (b ≡ d) ⊎ (Holds d blocks × (is_rejected d.hash n ≡ false))

moved :
    (n : Node) (blocks : Dict Entry) (g : Bytes) (e d : Entry)
    → is_rejected e.hash n ≡ false
    → (e ≡ d) ⊎ (Holds d blocks × (is_rejected d.hash n ≡ false))
    → Holds d ((g, e) ∷ blocks) × (is_rejected d.hash n ≡ false)
moved n blocks g e d fresh (inl same) = (inl same, rw same at fresh)
moved n blocks g e d fresh (inr (h, f)) = (inr h, f)

passed :
    (n : Node) (blocks : Dict Entry) (g : Bytes) (e b d : Entry)
    → (b ≡ d) ⊎ (Holds d blocks × (is_rejected d.hash n ≡ false))
    → (b ≡ d) ⊎ (Holds d ((g, e) ∷ blocks) × (is_rejected d.hash n ≡ false))
passed n blocks g e b d (inl same) = inl same
passed n blocks g e b d (inr (h, f)) = inr (inr h, f)

scan_from :
    (n : Node) (blocks : Dict Entry) (b : Entry)
    → (d : Entry) × (best_from (some b) blocks n ≡ some d) × Scans n blocks b d
unfolding best_from
scan_from n [] b = (b, refl, record { unbeaten = tt; still = λ x u. u; found = inl refl })
scan_from n ((g, e) ∷ blocks) b = elim (Bool-cases (is_rejected e.hash n)) [
  | inl r ↦
      let (d, q, s) = scan_from n blocks b in
      (
        d,
        rw r q,
        record {
          unbeaten = (inl r, s.unbeaten);
          still = s.still;
          found = passed n blocks g e b d s.found;
        },
      )
  | inr fresh ↦ elim (Bool-cases (beats e b)) [
    | inl better ↦
        let (d, q, s) = scan_from n blocks e in
        (
          d,
          rw (fresh, better) q,
          record {
            unbeaten = (inr (s.still e (beats_irrefl e)), s.unbeaten);
            still = λ x u. s.still x (beats-weaken x b e u better);
            found = inr (moved n blocks g e d fresh s.found);
          },
        )
    | inr worse ↦
        let (d, q, s) = scan_from n blocks b in
        (
          d,
          rw (fresh, worse) q,
          record {
            unbeaten = (inr (s.still e worse), s.unbeaten);
            still = s.still;
            found = passed n blocks g e b d s.found;
          },
        )
  ]
]

-- Less work, or as much and no smaller hash.
abbrev pub NoBetter : Entry → Entry → Type 0
NoBetter x d = (x.work < d.work) ⊎ ((x.work ≡ d.work) × (bytes_lt x.hash d.hash ≡ false))

beats-NoBetter : (x d : Entry) → beats x d ≡ false → NoBetter x d
unfolding beats
beats-NoBetter x d h = elim (dec_lt x.work d.work) [
  | yes less ↦ inl less
  | no more ↦ inr (ground arith, ground arith)
]

abbrev pub Rejected : Node → Bytes × Entry → Type 0
Rejected n p = is_rejected p.1.hash n ≡ true

-- What the choice among the blocks is to be.
abbrev pub IsBest : Node → Dict Entry → Option Entry → Type 0
IsBest n blocks none = All (Rejected n) blocks
IsBest n blocks (some d) =
    Holds d blocks
    × (is_rejected d.hash n ≡ false)
    × All (λ (p : Bytes × Entry). Rejected n p ⊎ NoBetter p.1 d) blocks

Unbeaten-NoBetter :
    (n : Node) (blocks : Dict Entry) (d : Entry)
    → Unbeaten n d blocks
    → All (λ (p : Bytes × Entry). Rejected n p ⊎ NoBetter p.1 d) blocks
Unbeaten-NoBetter n [] d h = tt
Unbeaten-NoBetter n ((g, e) ∷ blocks) d (inl r, h) = (inl r, Unbeaten-NoBetter n blocks d h)
Unbeaten-NoBetter n ((g, e) ∷ blocks) d (inr u, h) =
    (inr (beats-NoBetter e d u), Unbeaten-NoBetter n blocks d h)

-- A rejected entry in front changes nothing.
behind_rejected :
    (n : Node) (blocks : Dict Entry) (g : Bytes) (e : Entry) (o : Option Entry)
    → is_rejected e.hash n ≡ true
    → IsBest n blocks o
    → IsBest n ((g, e) ∷ blocks) o
behind_rejected n blocks g e none r h = (r, h)
behind_rejected n blocks g e (some d) r (held, fresh, all) = (inr held, fresh, (inl r, all))

-- The entry that `selectTipLocked` chooses is an entry of the tree that is not rejected, and every
-- other one that is not rejected has less work, or as much work and no smaller hash, whatever the
-- order in which the map is ranged over; and it chooses none only where every entry is rejected.
pub best_from-IsBest : (n : Node) (blocks : Dict Entry) → IsBest n blocks (best_from none blocks n)
unfolding best_from
best_from-IsBest n [] = tt
best_from-IsBest n ((g, e) ∷ blocks) = elim (Bool-cases (is_rejected e.hash n)) [
  | inl r ↦ rw r (behind_rejected n blocks g e _ r (best_from-IsBest n blocks))
  | inr fresh ↦
      let (d, q, s) = scan_from n blocks e in
      let (held, ok) = moved n blocks g e d fresh s.found in
      rw (fresh, q)
        (
          held,
          ok,
          (
            inr (beats-NoBetter e d (s.still e (beats_irrefl e))),
            Unbeaten-NoBetter n blocks d s.unbeaten,
          ),
        )
]
