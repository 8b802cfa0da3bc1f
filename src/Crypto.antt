-- ===== src/Crypto.antt =====
-- internal/crypto/crypto.go: addresses and signature checks. The hash and the signature scheme are
-- an instance argument, `Primitives`.
pub mod Interface
pub mod Text
pub mod AddressLaws
use blu_gold.Base.{
  ℕ, ◌+◌, ◌-◌, ◌≤◌, Bool, true, false, not, ◌&&◌, ◌||◌, List, [], ◌∷◌, ◌++◌, Bytes, length, take,
  drop, bytes_eq, leb, ◌==◌, if◌then◌else◌,
}
use blu_gold.Crypto.Interface.{Primitives}
use blu_gold.Crypto.Text.{hex_encode, base32_encode}

-- An address is its text, byte by byte.
abbrev pub Address : Type 0
Address = Bytes

-- "blu1"
abbrev pub address_prefix : Bytes
address_prefix = b'b' ∷ b'l' ∷ b'u' ∷ b'1' ∷ []

abbrev pub addr_body_bytes : ℕ
addr_body_bytes = 20

abbrev pub addr_body_chars : ℕ
addr_body_chars = 32

abbrev pub checksum_len : ℕ
checksum_len = 4

abbrev pub addr_length : ℕ
addr_length = length address_prefix + addr_body_chars + checksum_len

abbrev pub public_key_size : ℕ
public_key_size = 32

abbrev pub signature_size : ℕ
signature_size = 64

-- The empty address.
abbrev pub coinbase_address : Address
coinbase_address = []

unfoldable pub is_body_char : ℕ → Bool
is_body_char r = leb b'a' r && leb r b'z' || leb b'2' r && leb r b'7'

unfoldable pub all_body_chars : Bytes → Bool
all_body_chars [] = true
all_body_chars (r ∷ rs) = is_body_char r && all_body_chars rs

module _ ⦃p : Primitives⦄ where
  unfoldable pub compute_checksum : Bytes → Bytes
  compute_checksum body = take checksum_len (hex_encode (p.sha256 (address_prefix ++ body)))

  unfoldable pub address_from_pub_key : Bytes → Address
  address_from_pub_key pk =
      if not (length pk == public_key_size)
      then []
      else (let body = base32_encode (take addr_body_bytes (p.sha256 pk)) in
          address_prefix ++ (body ++ compute_checksum body))

  -- `s[len(prefix) : len(s)-checksumLen]` is the middle, and the checksum is what follows.
  unfoldable pub is_valid : Address → Bool
  is_valid s =
      let rest = drop (length address_prefix) s in
      let body = take (length rest - checksum_len) rest in
      let sum = drop (length rest - checksum_len) rest in
      length s == addr_length
      && bytes_eq (take (length address_prefix) s) address_prefix
      && all_body_chars body
      && bytes_eq (compute_checksum body) sum

  -- `crypto.Verify`
  unfoldable pub verify_signature : Bytes → Bytes → Bytes → Bool
  verify_signature pk msg sig =
      if not (length pk == public_key_size) || not (length sig == signature_size)
      then false
      else p.ed25519_verify pk msg sig
