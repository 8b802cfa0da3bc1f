-- ===== src/Tests/AmountRuns.antt =====
-- Runs of the amounts.
use blu_gold.Base.{◌≡◌, refl, [], ◌∷◌, bytes_eq, arith, ok}
use blu_gold.Chain.Amount.{
  fixed_digits, digits_of, format_amount, all_digits, digits_value, parse_uint, has_sign, cut,
  join_amount, parse_fraction, parse_parts, parse_amount,
}
use blu_gold.Chain.Amount.RoundTrip.{parse_amount-format_amount}

-- "1.50000000"
text : format_amount 150_000_000 ≡ 49 ∷ 46 ∷ 53 ∷ 48 ∷ 48 ∷ 48 ∷ 48 ∷ 48 ∷ 48 ∷ 48 ∷ []
unfolding format_amount digits_of fixed_digits
text = refl

-- "7.5"
short : parse_amount (λ s. s) (55 ∷ 46 ∷ 53 ∷ []) ≡ ok 750_000_000
unfolding all_digits digits_value parse_uint has_sign cut join_amount parse_fraction parse_parts
    parse_amount bytes_eq
short = refl

parse_amount-format_amount_example :
    parse_amount (λ s. s) (format_amount 150_000_000) ≡ ok 150_000_000
parse_amount-format_amount_example =
    parse_amount-format_amount 150_000_000 (omega arith) (λ s. s) (λ s h. refl)
