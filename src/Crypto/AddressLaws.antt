-- ===== src/Crypto/AddressLaws.antt =====
-- An address that is computed from a public key passes its own check.
use blu_gold.Base.{
  ℕ, zero, suc, ◌+◌, ◌-◌, ◌*◌, ◌/◌, ◌%◌, ◌<◌, ◌≡◌, refl, true, [], ◌∷◌, ◌++◌, Bytes, IsByte, All,
  length, take, arith, length-append, length-take, take-length_append, drop-length_append,
  bytes_eq_refl, bytes_eq, false,
}
use blu_gold.Crypto.Interface.{Primitives}
use blu_gold.Crypto.Text.{hex_encode, base32_char, base32_group, base32_encode}
use blu_gold.Crypto.{
  Address, coinbase_address, address_prefix, is_body_char, all_body_chars, compute_checksum,
  address_from_pub_key, is_valid,
}

length-hex_encode : (b : Bytes) → length (hex_encode b) ≡ 2 * length b
unfolding hex_encode
length-hex_encode [] = refl
length-hex_encode (b ∷ bs) = omega (arith, length-hex_encode bs)

base32_char-is_body_char : (n : ℕ) → n < 32 → is_body_char (base32_char n) ≡ true
unfolding base32_char is_body_char
base32_char-is_body_char n h = ground arith

all_body_chars-append :
    (a b : Bytes)
    → all_body_chars a ≡ true
    → all_body_chars b ≡ true
    → all_body_chars (a ++ b) ≡ true
unfolding all_body_chars
all_body_chars-append [] b ha hb = hb
all_body_chars-append (x ∷ a) b ha hb = ground (arith, all_body_chars-append a b)

base32_group-body :
    (a b c d e : ℕ)
    → IsByte a
    → IsByte b
    → IsByte c
    → IsByte d
    → IsByte e
    → all_body_chars (base32_group a b c d e) ≡ true
unfolding base32_group all_body_chars
base32_group-body a b c d e ha hb hc hd he =
    rw
      (
        base32_char-is_body_char (a / 8) (omega arith),
        base32_char-is_body_char (a % 8 * 4 + b / 64) (omega arith),
        base32_char-is_body_char (b / 2 % 32) (omega arith),
        base32_char-is_body_char (b % 2 * 16 + c / 16) (omega arith),
        base32_char-is_body_char (c % 16 * 2 + d / 128) (omega arith),
        base32_char-is_body_char (d / 4 % 32) (omega arith),
        base32_char-is_body_char (d % 4 * 8 + e / 32) (omega arith),
        base32_char-is_body_char (e % 32) (omega arith),
      )
      refl

length-base32_group : (a b c d e : ℕ) → length (base32_group a b c d e) ≡ 8
unfolding base32_group
length-base32_group a b c d e = refl

-- Whole groups of five bytes become whole groups of eight characters.
base32_encode-body :
    (k : ℕ) (b : Bytes)
    → length b ≡ 5 * k
    → All IsByte b
    → (length (base32_encode b) ≡ 8 * k) × (all_body_chars (base32_encode b) ≡ true)
unfolding base32_encode
base32_encode-body zero [] e h = unfold all_body_chars in (refl, refl)
base32_encode-body zero (x ∷ b) e h = absurd (omega arith)
base32_encode-body (suc k) (a ∷ b ∷ c ∷ d ∷ x ∷ rest) e (ha, (hb, (hc, (hd, (hx, h))))) =
    let (size, chars) = base32_encode-body k rest (omega arith) h in
    (
      omega (
        arith,
        length-append (base32_group a b c d x) (base32_encode rest),
        length-base32_group a b c d x,
        size,
      ),
      all_body_chars-append (base32_group a b c d x) (base32_encode rest)
          (base32_group-body a b c d x ha hb hc hd hx) chars,
    )
base32_encode-body (suc k) _ e h = absurd (omega arith)

All-take : (n : ℕ) (b : Bytes) → All IsByte b → All IsByte (take n b)
All-take zero b h = tt
All-take (suc n) [] h = tt
All-take (suc n) (x ∷ b) h = (h.0, All-take n b h.1)

module _ ⦃p : Primitives⦄ where
  length-compute_checksum : (body : Bytes) → length (compute_checksum body) ≡ 4
  unfolding compute_checksum
  length-compute_checksum body = omega (
    arith,
    length-take 4 (hex_encode (p.sha256 (address_prefix ++ body))),
    length-hex_encode (p.sha256 (address_prefix ++ body)),
    p.sha256_length (address_prefix ++ body),
  )

  -- Prefix, a body of 32 letters and its checksum.
  checked-is_valid :
      (body : Bytes)
      → length body ≡ 32
      → all_body_chars body ≡ true
      → is_valid (address_prefix ++ (body ++ compute_checksum body)) ≡ true
  unfolding is_valid
  checked-is_valid body size chars =
      let sum = compute_checksum body in
      let rest : length (body ++ sum) ≡ 36 =
        omega (arith, length-append body sum, size, length-compute_checksum body) in
      let cut : length (body ++ sum) - 4 ≡ length body = omega (arith, rest, size) in
      rw
        (
          cut,
          rest,
          take-length_append body sum,
          drop-length_append body sum,
          chars,
          bytes_eq_refl address_prefix,
          bytes_eq_refl sum,
        )
        refl

  -- The address of every 32-byte public key passes `Valid`.
  pub address_from_pub_key-is_valid :
      (pk : Bytes) → length pk ≡ 32 → is_valid (address_from_pub_key pk) ≡ true
  unfolding address_from_pub_key
  address_from_pub_key-is_valid pk h =
      let (size, chars) =
        base32_encode-body 4 (take 20 (p.sha256 pk))
          (omega (arith, length-take 20 (p.sha256 pk), p.sha256_length pk))
          (All-take 20 (p.sha256 pk) (p.sha256_bytes pk)) in
      rw h (checked-is_valid (base32_encode (take 20 (p.sha256 pk))) (omega (arith, size)) chars)

module _ ⦃c : Primitives⦄ where
  invalid_empty : is_valid [] ≡ false
  unfolding is_valid
  invalid_empty = refl

  pub is_valid-not_coinbase :
      (a : Address) → is_valid a ≡ true → bytes_eq a coinbase_address ≡ false
  is_valid-not_coinbase [] v = absurd (cc (invalid_empty, v))
  is_valid-not_coinbase (x ∷ a) v = unfold bytes_eq in refl
