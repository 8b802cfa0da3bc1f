-- ===== src/Base/Dict/Unique.antt =====
-- Dictionaries in which each key stands once, as in a Go map.
use mathlib.Core.Path.{◌≡◌, refl}
use mathlib.Core.Logic.{inl, inr}
use mathlib.Core.Option.{none, some}
use mathlib.Core.List.{[], ◌∷◌}
use Prim.Native.Nat.{◌≤◌, ◌<◌}
use native.Mathlib.Omega.{arith}
use blu_gold.Base.Tests.{Bool-cases}
use blu_gold.Base.Lists.{length, All}
use blu_gold.Base.ByteStrings.{Bytes, bytes_eq, bytes_eq→eq, bytes_eq_refl}
use blu_gold.Base.Dict.{Dict, lookup, insert, erase, lookup-insert, lookup-erase}

module _ {ℓ} {V : Type ℓ} where
  abbrev pub Unique : Dict V → Type ℓ
  Unique [] = Unit {ℓ}
  Unique ((k, v) ∷ d) = (lookup k d ≡ none) × Unique d

  pub Unique-insert : (k : Bytes) (v : V) (d : Dict V) → Unique d → Unique (insert k v d)
  unfolding insert lookup
  Unique-insert k v [] u = (refl, u)
  Unique-insert k v ((j, w) ∷ d) (new, u) = elim (Bool-cases (bytes_eq j k)) [
    | inl same ↦ rw same (new, u)
    | inr other ↦ rw other (
      ground (arith, new, lookup-insert k j v d, bytes_eq→eq k j, bytes_eq_refl j, other),
      Unique-insert k v d u,
    )
  ]

  pub Unique-erase : (k : Bytes) (d : Dict V) → Unique d → Unique (erase k d)
  unfolding erase lookup
  Unique-erase k [] u = u
  Unique-erase k ((j, w) ∷ d) (new, u) = elim (Bool-cases (bytes_eq j k)) [
    | inl same ↦ rw same (Unique-erase k d u)
    | inr other ↦ rw other (ground (arith, new, lookup-erase k j d), Unique-erase k d u)
  ]

  pub length-erase-le : (k : Bytes) (d : Dict V) → length (erase k d) ≤ length d
  unfolding erase
  length-erase-le k [] = omega arith
  length-erase-le k ((j, w) ∷ d) = ground (arith, length-erase-le k d)

  -- A key that is there takes an entry with it.
  pub length-erase-lt :
      (k : Bytes) (d : Dict V) (v : V) → lookup k d ≡ some v → length (erase k d) < length d
  unfolding erase lookup
  length-erase-lt k [] v h = cc
  length-erase-lt k ((j, w) ∷ d) v h = ground (arith, length-erase-le k d, length-erase-lt k d v)

  -- What holds of all that is found holds of all that is listed.
  pub listed-found :
      (P : Bytes → V → Type ℓ) (d : Dict V)
      → Unique d
      → ((k : Bytes) (v : V) → lookup k d ≡ some v → P k v)
      → All (λ (p : Bytes × V). P p.0 p.1) d
  unfolding lookup
  listed-found P [] u h = tt
  listed-found P ((j, w) ∷ d) (new, u) h = (
    h j w (rw (bytes_eq_refl j) refl),
    listed-found P d u (λ k v e. h k v (ground (arith, e, new, bytes_eq→eq j k))),
  )
