-- ===== src/Chain/Amount.antt =====
-- internal/chain/params.go: amounts as decimal texts. `strings.TrimSpace` is a parameter.
pub mod RoundTrip
use blu_gold.Base.{
  ℕ, zero, suc, ◌+◌, ◌-◌, ◌*◌, ◌/◌, ◌%◌, ◌^◌, Bool, true, false, not, ◌&&◌, ◌||◌, Option, none,
  some, List, [], ◌∷◌, ◌++◌, Bytes, bytes_eq, length, replicate, ltb, leb, ◌==◌, if◌then◌else◌,
  Result, ok, err, u64_mod,
}
use mathlib.Core.List.{foldl}

-- `Bluglets`
abbrev pub bluglets : ℕ
bluglets = 100_000_000

-- `%0kd` of a number of at most `k` digits.
unfoldable pub fixed_digits : ℕ → ℕ → Bytes
fixed_digits zero n = []
fixed_digits (suc k) n = fixed_digits k (n / 10) ++ ((48 + n % 10) ∷ [])

-- `%d` of a number of at most `k` digits.
unfoldable pub digits_of : ℕ → ℕ → Bytes
digits_of zero n = []
digits_of (suc k) n =
    let front = digits_of k (n / 10) in
    if ltb n 10 then (48 + n) ∷ [] else front ++ ((48 + n % 10) ∷ [])

-- `FormatAmount`; a uint64 has at most 20 digits.
unfoldable pub format_amount : ℕ → Bytes
format_amount a = digits_of 20 (a / bluglets) ++ (46 ∷ fixed_digits 8 (a % bluglets))

abbrev pub is_digit : ℕ → Bool
is_digit b = leb 48 b && leb b 57

unfoldable pub all_digits : Bytes → Bool
all_digits [] = true
all_digits (b ∷ s) = is_digit b && all_digits s

unfoldable pub digits_value : Bytes → ℕ
digits_value = foldl (λ acc b. acc * 10 + (b - 48)) 0

-- `strconv.ParseUint(s, 10, 64)`
unfoldable pub parse_uint : Bytes → Option ℕ
parse_uint s =
    if bytes_eq s [] || not (all_digits s)
    then none
    else if ltb (digits_value s) u64_mod
    then some (digits_value s)
    else none

-- `strings.ContainsAny(s, "-+eE")`
unfoldable pub has_sign : Bytes → Bool
has_sign [] = false
has_sign (b ∷ s) = (b == 45 || b == 43 || b == 101 || b == 69) || has_sign s

-- `strings.Cut(s, ".")`: the parts before and behind the first point, and whether there is one.
unfoldable pub cut : Bytes → Bytes × Bytes × Bool
cut [] = ([], [], false)
cut (b ∷ s) =
    let (before, behind, found) = cut s in
    if b == 46 then ([], s, true) else (b ∷ before, behind, found)

pub data AmountError : Type 0 where
  invalid_amount too_many_decimals amount_overflow : AmountError

-- The end of `ParseAmount`.
unfoldable pub join_amount : ℕ → ℕ → Result AmountError ℕ
join_amount whole frac =
    if ltb ((u64_mod - 1 - frac) / bluglets) whole
    then err amount_overflow
    else ok (whole * bluglets + frac)

-- The fraction of `ParseAmount`, filled up with zeros.
unfoldable pub parse_fraction : ℕ → Bytes → Bool → Result AmountError ℕ
parse_fraction whole frac false = join_amount whole 0
parse_fraction whole frac true = elim (parse_uint (frac ++ replicate (8 - length frac) 48)) [
  | none ↦ err invalid_amount
  | some f ↦ join_amount whole f
]

unfoldable pub parse_parts : Bytes × Bytes × Bool → Result AmountError ℕ
parse_parts (whole, frac, found) =
    if found && ltb 8 (length frac) then err too_many_decimals else elim (parse_uint whole) [
      | none ↦ err invalid_amount
      | some w ↦ parse_fraction w frac found
    ]

-- `ParseAmount`
unfoldable pub parse_amount : (Bytes → Bytes) → Bytes → Result AmountError ℕ
parse_amount trim_space s =
    let t = trim_space s in
    if bytes_eq t [] || has_sign t then err invalid_amount else parse_parts (cut t)
