-- ===== src/Chain/HashText.antt =====
-- internal/chain/hash.go: the hex form of a hash. JSON of a text is a parameter.
use blu_gold.Base.{
  ℕ, ◌+◌, ◌-◌, ◌*◌, Bool, ◌&&◌, Option, none, some, [], ◌∷◌, Bytes, bytes_eq, length, take, leb,
  ◌==◌, if◌then◌else◌,
}
use blu_gold.Crypto.Text.{hex_encode}
use blu_gold.Chain.Tx.{Hash}
use blu_gold.Chain.Block.{zero_hash}

-- `String`
unfoldable pub hash_text : Hash → Bytes
hash_text h = hex_encode h

-- `Short`
unfoldable pub short_text : Hash → Bytes
unfolding hash_text
short_text h = take 12 (hash_text h)

-- `IsZero`
unfoldable pub is_zero : Hash → Bool
is_zero h = bytes_eq h zero_hash

-- The value of a digit of either case.
unfoldable pub hex_value : ℕ → Option ℕ
hex_value b =
    if leb b'0' b && leb b b'9'
    then some (b - b'0')
    else if leb b'a' b && leb b b'f'
    then some (b - b'a' + 10)
    else if leb b'A' b && leb b b'F'
    then some (b - b'A' + 10)
    else none

abbrev pub hex_byte : Option ℕ → Option ℕ → Option Bytes → Option Bytes
hex_byte (some x) (some y) (some rest) = some ((x * 16 + y) ∷ rest)
hex_byte (some x) (some y) none = none
hex_byte (some x) none rest = none
hex_byte none y rest = none

-- `hex.DecodeString`
unfoldable pub hex_decode : Bytes → Option Bytes
hex_decode [] = some []
hex_decode (a ∷ []) = none
hex_decode (a ∷ b ∷ rest) = hex_byte (hex_value a) (hex_value b) (hex_decode rest)

abbrev pub whole_hash : Option Bytes → Option Hash
whole_hash none = none
whole_hash (some b) = if length b == 32 then some b else none

-- `UnmarshalJSON`, for what `json.Unmarshal` into a string gives.
unfoldable pub unmarshal_hash : Option Bytes → Option Hash
unmarshal_hash none = none
unmarshal_hash (some s) = whole_hash (hex_decode s)
