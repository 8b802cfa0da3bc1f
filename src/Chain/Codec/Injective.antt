-- ===== src/Chain/Codec/Injective.antt =====
-- The fields of an encoding can be read back: each has a fixed width or a length before it.
use blu_gold.Base.{
  ℕ, zero, suc, ◌/◌, ◌%◌, ◌^◌, ◌<◌, ◌≡◌, refl, sym, ap, ◌∙◌, [], ◌∷◌, ◌++◌, List, Bytes, length,
  arith, All, IsByte,
}
use mathlib.Core.List.{append_assoc}
use mathlib.Core.Path.{ap₂}
use native.Mathlib.Nat.{pow-suc}
use blu_gold.Chain.Codec.{le_bytes}

pub length-le_bytes : (k v : ℕ) → length (le_bytes k v) ≡ k
unfolding le_bytes
length-le_bytes zero v = refl
length-le_bytes (suc k) v = ap suc (length-le_bytes k (v / 256))

cons-inj : {A : Type 0} (x y : A) {a b : List A} → x ∷ a ≡ y ∷ b → (x ≡ y) × (a ≡ b)
cons-inj x y e = (cc, cc)

-- Two lists that start with parts of the same length agree part by part.
pub append-inj :
    {A : Type 0} (a b : List A) {r s : List A}
    → length a ≡ length b
    → a ++ r ≡ b ++ s
    → (a ≡ b) × (r ≡ s)
append-inj [] [] h e = (refl, e)
append-inj [] (y ∷ b) h e = absurd (omega arith)
append-inj (x ∷ a) [] h e = absurd (omega arith)
append-inj (x ∷ a) (y ∷ b) h e =
    let (here, there) = cons-inj x y e in
    let (p, q) = append-inj a b (omega arith) there in (ap₂ ◌∷◌ here p, q)

le_bytes-inj : (k v w : ℕ) → v < 256 ^ k → w < 256 ^ k → le_bytes k v ≡ le_bytes k w → v ≡ w
unfolding le_bytes
le_bytes-inj zero v w hv hw e = omega arith
le_bytes-inj (suc k) v w hv hw e =
    let (low, high) = cons-inj (v % 256) (w % 256) e in
    omega (
      arith,
      low,
      le_bytes-inj k (v / 256) (w / 256) (omega (arith, pow-suc 256 k))
          (omega (arith, pow-suc 256 k)) high,
    )

pub le_bytes-field :
    (k v w : ℕ) {r s : Bytes}
    → v < 256 ^ k
    → w < 256 ^ k
    → le_bytes k v ++ r ≡ le_bytes k w ++ s
    → (v ≡ w) × (r ≡ s)
le_bytes-field k v w hv hw e =
    let (p, q) =
      append-inj (le_bytes k v) (le_bytes k w)
        (omega (arith, length-le_bytes k v, length-le_bytes k w)) e in
    (le_bytes-inj k v w hv hw p, q)

-- A string or a byte slice, with its length before it.
unfoldable pub prefixed : Bytes → Bytes
prefixed b = le_bytes 4 (length b % 2 ^ 32) ++ b

pub prefixed-field :
    (a b : Bytes) {r s : Bytes}
    → length a < 2 ^ 32
    → length b < 2 ^ 32
    → prefixed a ++ r ≡ prefixed b ++ s
    → (a ≡ b) × (r ≡ s)
unfolding prefixed
prefixed-field a b {r} {s} ha hb e = append-inj a b (omega (arith, fields.0)) fields.1
  where
    fields : (length a % 2 ^ 32 ≡ length b % 2 ^ 32) × (a ++ r ≡ b ++ s)
    fields = le_bytes-field 4 (length a % 2 ^ 32) (length b % 2 ^ 32) (omega arith) (omega arith) (
        sym (append_assoc (le_bytes 4 (length a % 2 ^ 32)) a r)
        ∙ e
        ∙ append_assoc (le_bytes 4 (length b % 2 ^ 32)) b s)

pub le_bytes-IsByte : (k v : ℕ) → All IsByte (le_bytes k v)
unfolding le_bytes
le_bytes-IsByte zero v = tt
le_bytes-IsByte (suc k) v = (omega arith, le_bytes-IsByte k (v / 256))
