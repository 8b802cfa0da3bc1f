-- ===== src/Crypto/Text.antt =====
-- The text encodings that addresses use: encoding/hex, and encoding/base32 with the alphabet
-- of crypto.go and no padding.
use blu_gold.Base.{ℕ, ◌+◌, ◌-◌, ◌*◌, ◌/◌, ◌%◌, [], ◌∷◌, ◌++◌, Bytes, take, ltb, if◌then◌else◌}

-- The digits of "0123456789abcdef".
unfoldable pub hex_digit : ℕ → ℕ
hex_digit n = if ltb n 10 then b'0' + n else b'a' + (n - 10)

unfoldable pub hex_encode : Bytes → Bytes
hex_encode [] = []
hex_encode (b ∷ bs) = hex_digit (b / 16) ∷ hex_digit (b % 16) ∷ hex_encode bs

-- The characters of "abcdefghijklmnopqrstuvwxyz234567".
unfoldable pub base32_char : ℕ → ℕ
base32_char n = if ltb n 26 then b'a' + n else b'2' + (n - 26)

-- Five bytes are forty bits, eight characters of five bits each, the highest first.
unfoldable pub base32_group : ℕ → ℕ → ℕ → ℕ → ℕ → Bytes
base32_group a b c d e =
    base32_char (a / 8)
    ∷ base32_char (a % 8 * 4 + b / 64)
    ∷ base32_char (b / 2 % 32)
    ∷ base32_char (b % 2 * 16 + c / 16)
    ∷ base32_char (c % 16 * 2 + d / 128)
    ∷ base32_char (d / 4 % 32)
    ∷ base32_char (d % 4 * 8 + e / 32)
    ∷ base32_char (e % 32)
    ∷ []

-- A last group of one to four bytes is filled up by zeros, and its last characters are left out.
unfoldable pub base32_encode : Bytes → Bytes
base32_encode [] = []
base32_encode (a ∷ []) = take 2 (base32_group a 0 0 0 0)
base32_encode (a ∷ b ∷ []) = take 4 (base32_group a b 0 0 0)
base32_encode (a ∷ b ∷ c ∷ []) = take 5 (base32_group a b c 0 0)
base32_encode (a ∷ b ∷ c ∷ d ∷ []) = take 7 (base32_group a b c d 0)
base32_encode (a ∷ b ∷ c ∷ d ∷ e ∷ rest) = base32_group a b c d e ++ base32_encode rest
