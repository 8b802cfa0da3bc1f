-- ===== src/Tests/ChainRuns.antt =====
use blu_gold.Base.{ℕ, ◌+◌, ◌≤◌, ◌≡◌, refl, true, some, none, [], ◌∷◌, arith}
use blu_gold.Base.Int.{pos}
use blu_gold.Crypto.{address_from_pub_key, is_valid}
use blu_gold.Crypto.AddressLaws.{address_from_pub_key-is_valid}
use blu_gold.Chain.Params.{reward_at, default_params}
use blu_gold.Chain.Params.Supply.{minted, default_supply_cap, default_supply_reached}
use blu_gold.Chain.Tx.Encoding.{IsEncodable, SameSigned, signing_bytes-inj, encode-inj}
use blu_gold.Chain.Tx.{slice_bytes, signing_bytes, encode}
use blu_gold.Chain.Block.{Block, block_hash, validate_basic, validate_pow}
use blu_gold.Chain.Block.Header.{SameHeader, header_bytes-inj}
use blu_gold.Chain.Block.Twin.{with_txs, twin_verdicts}
use blu_gold.Chain.Difficulty.{next_difficulty}
use blu_gold.Chain.Difficulty.Bounds.{IsNear, next_difficulty_bounds}
use blu_gold.Tests.Sample.{toy, running, payment, second_payment, coinbase, block_one, alice_key}

abbrev tip_at : ℕ → Block
tip_at ms = record block_one { height = 19; difficulty = 100; time = pos ms }

-- An interval that took a tenth of the time is worth a factor of 4, and no more.
retarget_fast : next_difficulty default_params (some (tip_at 720_000)) (some (tip_at 0)) ≡ 400
unfolding running
retarget_fast = refl

reward_third_era : reward_at default_params 20_160 ≡ some 25_000_000
unfolding running
reward_third_era = refl

next_difficulty_bounds_example :
    IsNear 100 (next_difficulty default_params (some (tip_at 720_000)) (some (tip_at 0)))
unfolding running
next_difficulty_bounds_example =
    next_difficulty_bounds default_params (tip_at 720_000) (some (tip_at 0)) (omega arith)
      (omega arith) (omega arith)

default_supply_cap_example : minted default_params 5 + 100_000_000 ≤ 2_015_999_879_040
default_supply_cap_example = default_supply_cap 5

default_supply_reached_example : minted default_params 300_000 ≡ 2_015_899_879_040
default_supply_reached_example = default_supply_reached 300_000 (omega arith)

payment-IsEncodable : IsEncodable payment
unfolding running
payment-IsEncodable = omega arith

signing_bytes-inj_example : SameSigned payment (record payment { sig = none })
signing_bytes-inj_example =
    signing_bytes-inj payment (record payment { sig = none }) payment-IsEncodable
      unsigned-IsEncodable (unfold signing_bytes encode in refl)
  where
    unsigned-IsEncodable : IsEncodable (record payment { sig = none })
    unsigned-IsEncodable = unfold running in omega arith

encode-inj_example :
    SameSigned (record coinbase { sig = some [] }) coinbase
    × (slice_bytes (some []) ≡ slice_bytes none)
unfolding running
encode-inj_example =
    encode-inj (record coinbase { sig = some [] }) coinbase (omega arith) (omega arith) refl

header_bytes-inj_example : SameHeader (with_txs block_one []) block_one
unfolding running
header_bytes-inj_example =
    header_bytes-inj (with_txs block_one []) block_one (omega arith) (omega arith) refl

address_from_pub_key-is_valid_example : is_valid (address_from_pub_key alice_key) ≡ true
address_from_pub_key-is_valid_example = address_from_pub_key-is_valid alice_key refl

twin_verdicts_example :
    let honest = with_txs block_one (coinbase ∷ payment ∷ second_payment ∷ []) in
    let twin = with_txs block_one (coinbase ∷ payment ∷ second_payment ∷ second_payment ∷ []) in
    (block_hash twin ≡ block_hash honest)
    × (validate_basic default_params (some block_one) (pos 5) twin
        ≡ validate_basic default_params (some block_one) (pos 5) honest)
    × (validate_pow twin ≡ validate_pow honest)
twin_verdicts_example =
    twin_verdicts default_params (some block_one) block_one (pos 5) coinbase (payment ∷ [])
      second_payment (omega arith) (omega arith)
