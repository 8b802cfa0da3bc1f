-- ===== src/Chain/Amount/RoundTrip.antt =====
-- An amount is read back from its text.
use blu_gold.Base.{
  ℕ, zero, suc, ◌+◌, ◌-◌, ◌*◌, ◌/◌, ◌%◌, ◌≤◌, ◌<◌, ◌≡◌, refl, ap, ◌∙◌, Bool, true, false,
  Bool-cases, inl, inr, ◌⊎◌, some, [], ◌∷◌, ◌++◌, Bytes, bytes_eq, All, All-append, arith, length,
  length-append, replicate, ltb, IsU64, u64_mod, ok,
}
use mathlib.Core.List.{foldl, append-nil}
use blu_gold.Chain.Amount.{
  bluglets, fixed_digits, digits_of, format_amount, all_digits, digits_value, parse_uint, has_sign,
  cut, join_amount, parse_fraction, parse_parts, parse_amount,
}

abbrev pub IsDigit : ℕ → Type 0
IsDigit b = (48 ≤ b) × (b ≤ 57)

-- Ten times itself, `k` times.
tens : ℕ → ℕ
tens zero = 1
tens (suc k) = 10 * tens k

value_snoc :
    (s : Bytes) (acc d : ℕ)
    → foldl (λ acc b. acc * 10 + (b - 48)) acc (s ++ (d ∷ []))
      ≡ foldl (λ acc b. acc * 10 + (b - 48)) acc s * 10 + (d - 48)
value_snoc [] acc d = refl
value_snoc (b ∷ s) acc d = value_snoc s (acc * 10 + (b - 48)) d

fixed_digits-IsDigit : (k n : ℕ) → All IsDigit (fixed_digits k n)
unfolding fixed_digits
fixed_digits-IsDigit zero n = tt
fixed_digits-IsDigit (suc k) n =
    All-append IsDigit (fixed_digits k (n / 10)) ((48 + n % 10) ∷ [])
      (fixed_digits-IsDigit k (n / 10)) (omega arith)

length-fixed_digits : (k n : ℕ) → length (fixed_digits k n) ≡ k
unfolding fixed_digits
length-fixed_digits zero n = refl
length-fixed_digits (suc k) n = omega (
  arith,
  length-append (fixed_digits k (n / 10)) ((48 + n % 10) ∷ []),
  length-fixed_digits k (n / 10),
)

value-fixed_digits : (k n : ℕ) → n < tens k → digits_value (fixed_digits k n) ≡ n
unfolding fixed_digits digits_value tens
value-fixed_digits zero n h = omega (arith, h)
value-fixed_digits (suc k) n h = omega (
  arith,
  value_snoc (fixed_digits k (n / 10)) 0 (48 + n % 10),
  value-fixed_digits k (n / 10) (omega (arith, h)),
)

digits_of-IsDigit : (k n : ℕ) → All IsDigit (digits_of k n)
unfolding digits_of
digits_of-IsDigit zero n = tt
digits_of-IsDigit (suc k) n = elim (Bool-cases (ltb n 10)) [
  | inl small ↦ rw small (ground (arith, small))
  | inr large ↦ rw large (
      All-append IsDigit (digits_of k (n / 10)) ((48 + n % 10) ∷ []) (digits_of-IsDigit k (n / 10))
        (omega arith))
]

value-digits_of : (k n : ℕ) → n < tens k → digits_value (digits_of k n) ≡ n
unfolding digits_of digits_value tens
value-digits_of zero n h = omega (arith, h)
value-digits_of (suc k) n h = elim (Bool-cases (ltb n 10)) [
  | inl small ↦ rw small (omega arith)
  | inr large ↦ rw large (
      omega (
        arith,
        value_snoc (digits_of k (n / 10)) 0 (48 + n % 10),
        value-digits_of k (n / 10) (omega (arith, h)),
      ))
]

snoc_some : (s : Bytes) (d : ℕ) → bytes_eq (s ++ (d ∷ [])) [] ≡ false
unfolding bytes_eq
snoc_some [] d = refl
snoc_some (b ∷ s) d = refl

digits_of_some : (k n : ℕ) → bytes_eq (digits_of (suc k) n) [] ≡ false
unfolding digits_of
digits_of_some k n = elim (Bool-cases (ltb n 10)) [
  | inl small ↦ rw small (snoc_some [] (48 + n))
  | inr large ↦ rw large (snoc_some (digits_of k (n / 10)) (48 + n % 10))
]

fixed_digits_some : (k n : ℕ) → bytes_eq (fixed_digits (suc k) n) [] ≡ false
unfolding fixed_digits
fixed_digits_some k n = snoc_some (fixed_digits k (n / 10)) (48 + n % 10)

append_some : (s r : Bytes) → bytes_eq s [] ≡ false → bytes_eq (s ++ r) [] ≡ false
unfolding bytes_eq
append_some [] r h = absurd (cc (h))
append_some (b ∷ s) r h = refl

all_digits_lem : (s : Bytes) → All IsDigit s → all_digits s ≡ true
unfolding all_digits
all_digits_lem [] h = refl
all_digits_lem (b ∷ s) (hb, h) = ground (arith, hb, all_digits_lem s h)

parse_uint-digits :
    (s : Bytes)
    → All IsDigit s
    → bytes_eq s [] ≡ false
    → IsU64 (digits_value s)
    → parse_uint s ≡ some (digits_value s)
unfolding parse_uint
parse_uint-digits s h named room = ground (arith, all_digits_lem s h, named, room)

-- A digit or a point.
abbrev pub IsPlain : ℕ → Type 0
IsPlain b = IsDigit b ⊎ (b ≡ 46)

plain : (s : Bytes) → All IsDigit s → All IsPlain s
plain [] h = tt
plain (b ∷ s) (hb, h) = (inl hb, plain s h)

unsigned : (s : Bytes) → All IsPlain s → has_sign s ≡ false
unfolding has_sign
unsigned [] h = refl
unsigned (b ∷ s) (hb, h) = ground (arith, hb, unsigned s h)

cut-digits : (s r : Bytes) → All IsDigit s → cut (s ++ (46 ∷ r)) ≡ (s, r, true)
unfolding cut
cut-digits [] r h = refl
cut-digits (b ∷ s) r (hb, h) = ground (arith, hb, cut-digits s r h)

parts_step :
    (w f : Bytes) (x y : ℕ)
    → length f ≡ 8
    → parse_uint w ≡ some x
    → parse_uint f ≡ some y
    → parse_parts (w, f, true) ≡ join_amount x y
unfolding parse_parts parse_fraction
parts_step w f x y eight px py =
    let filled : f ++ replicate (8 - length f) 48 ≡ f =
      ap (λ n. f ++ replicate (8 - n) 48) eight ∙ append-nil f in
    let read : parse_uint (f ++ replicate (8 - length f) 48) ≡ some y = ap parse_uint filled ∙ py in
    ground (arith, eight, px, read)

amount_step :
    (trim_space : Bytes → Bytes) (s : Bytes) (q : Bytes × Bytes × Bool)
    → trim_space s ≡ s
    → bytes_eq s [] ≡ false
    → has_sign s ≡ false
    → cut s ≡ q
    → parse_amount trim_space s ≡ parse_parts q
unfolding parse_amount
amount_step trim_space s q same named plus parts = rw (same, named, plus, parts) refl

module _ (a : ℕ) (fits : IsU64 a) where
  whole : Bytes
  whole = digits_of 20 (a / bluglets)

  frac : Bytes
  frac = fixed_digits 8 (a % bluglets)

  format_amount-IsPlain : All IsPlain (format_amount a)
  unfolding format_amount
  format_amount-IsPlain =
      All-append IsPlain (digits_of 20 (a / bluglets)) (46 ∷ fixed_digits 8 (a % bluglets))
        (plain _ (digits_of-IsDigit 20 (a / bluglets)))
        (inr refl, plain _ (fixed_digits-IsDigit 8 (a % bluglets)))

  whole_read : parse_uint whole ≡ some (a / bluglets)
  unfolding whole tens
  whole_read =
      let v = value-digits_of 20 (a / bluglets) (omega (arith, fits)) in
      parse_uint-digits whole (digits_of-IsDigit 20 (a / bluglets))
        (digits_of_some 19 (a / bluglets)) (omega (arith, v, fits))
      ∙ ap some v

  frac_read : parse_uint frac ≡ some (a % bluglets)
  unfolding frac tens
  frac_read =
      let v = value-fixed_digits 8 (a % bluglets) (omega arith) in
      parse_uint-digits frac (fixed_digits-IsDigit 8 (a % bluglets))
        (fixed_digits_some 7 (a % bluglets)) (omega (arith, v, fits))
      ∙ ap some v

  joined : join_amount (a / bluglets) (a % bluglets) ≡ ok a
  unfolding join_amount
  joined =
      let same : a / bluglets * bluglets + a % bluglets ≡ a = omega arith in
      let room : ltb ((u64_mod - 1 - a % bluglets) / bluglets) (a / bluglets) ≡ false =
        ground (arith, fits) in
      rw room (ap ok same)

  -- A uint64 amount is read back from its text, where trimming leaves a text of digits and points
  -- as it is.
  pub parse_amount-format_amount :
      (trim_space : Bytes → Bytes)
      → ((s : Bytes) → All IsPlain s → trim_space s ≡ s)
      → parse_amount trim_space (format_amount a) ≡ ok a
  unfolding format_amount whole frac
  parse_amount-format_amount trim_space keeps =
      amount_step trim_space (format_amount a) (whole, frac, true)
        (keeps (format_amount a) format_amount-IsPlain)
        (append_some whole (46 ∷ frac) (digits_of_some 19 (a / bluglets)))
        (unsigned (format_amount a) format_amount-IsPlain)
        (cut-digits whole frac (digits_of-IsDigit 20 (a / bluglets)))
      ∙ parts_step whole frac (a / bluglets) (a % bluglets) (length-fixed_digits 8 (a % bluglets))
          whole_read frac_read
      ∙ joined
