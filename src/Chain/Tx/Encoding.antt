-- ===== src/Chain/Tx/Encoding.antt =====
-- The encoding of a transaction determines its fields.
use blu_gold.Base.{◌^◌, ◌<◌, ◌≡◌, sym, ap, ◌∙◌, false, [], ◌++◌, Bytes, length, IsU64, arith}
use mathlib.Core.List.{append_assoc, append-nil}
use blu_gold.Base.Int.{ℤ, to_u64, of_u64, of_u64-to_u64, to_u64-lt, IsI64}
use blu_gold.Chain.Codec.{le_bytes, write_u64, write_i64, write_string, write_bytes}
use blu_gold.Chain.Codec.Injective.{prefixed, prefixed-field, le_bytes-field}
use blu_gold.Chain.Tx.{Tx, encode, signing_bytes, slice_bytes}

-- The fields hold Go values: strings and slices below 2 ^ 32 bytes, uint64 and int64 numbers.
pub record IsEncodable (t : Tx) : Type 0 where
  pub from_fits : length t.from < 2 ^ 32
  pub to_fits : length t.to < 2 ^ 32
  pub amount_fits : IsU64 t.amount
  pub fee_fits : IsU64 t.fee
  pub nonce_fits : IsU64 t.nonce
  pub time_fits : IsI64 t.time
  pub key_fits : length (slice_bytes t.pub_key) < 2 ^ 32
  pub sig_fits : length (slice_bytes t.sig) < 2 ^ 32

-- All fields that are signed; a nil key and an empty one are one here.
pub record SameSigned (t u : Tx) : Type 0 where
  pub same_from : t.from ≡ u.from
  pub same_to : t.to ≡ u.to
  pub same_amount : t.amount ≡ u.amount
  pub same_fee : t.fee ≡ u.fee
  pub same_nonce : t.nonce ≡ u.nonce
  pub same_time : t.time ≡ u.time
  pub same_key : slice_bytes t.pub_key ≡ slice_bytes u.pub_key

-- The signed bytes field by field, before a rest.
layout : Tx → Bytes → Bytes
layout t rest =
    prefixed t.from
    ++ (prefixed t.to
        ++ (le_bytes 8 t.amount
            ++ (le_bytes 8 t.fee
                ++ (le_bytes 8 t.nonce
                    ++ (le_bytes 8 (to_u64 t.time)
                        ++ (prefixed (slice_bytes t.pub_key) ++ rest))))))

encode-layout : (t : Tx) → encode false t ≡ layout t (prefixed (slice_bytes t.sig))
unfolding encode write_u64 write_i64 write_string write_bytes layout prefixed
encode-layout t = simp append_assoc

signing_bytes-layout : (t : Tx) → signing_bytes t ≡ layout t []
unfolding signing_bytes encode write_u64 write_i64 write_string write_bytes layout prefixed
signing_bytes-layout t = simp (append_assoc, append-nil)

time-inj : (a b : ℤ) → IsI64 a → IsI64 b → to_u64 a ≡ to_u64 b → a ≡ b
time-inj a b ha hb e = sym (of_u64-to_u64 a ha) ∙ ap of_u64 e ∙ of_u64-to_u64 b hb

layout-field :
    (t u : Tx) {r s : Bytes}
    → IsEncodable t
    → IsEncodable u
    → layout t r ≡ layout u s
    → SameSigned t u × (r ≡ s)
unfolding layout
layout-field t u ht hu e =
    let (from, e1) = prefixed-field t.from u.from ht.from_fits hu.from_fits e in
    let (to, e2) = prefixed-field t.to u.to ht.to_fits hu.to_fits e1 in
    let (amount, e3) = le_bytes-field 8 t.amount u.amount (omega arith) (omega arith) e2 in
    let (fee, e4) = le_bytes-field 8 t.fee u.fee (omega arith) (omega arith) e3 in
    let (nonce, e5) = le_bytes-field 8 t.nonce u.nonce (omega arith) (omega arith) e4 in
    let (time, e6) =
      le_bytes-field 8 (to_u64 t.time) (to_u64 u.time) (omega (arith, to_u64-lt t.time))
        (omega (arith, to_u64-lt u.time)) e5 in
    let (key, rest) =
      prefixed-field (slice_bytes t.pub_key) (slice_bytes u.pub_key) ht.key_fits hu.key_fits e6 in
    (
      record {
        same_from = from;
        same_to = to;
        same_amount = amount;
        same_fee = fee;
        same_nonce = nonce;
        same_time = time-inj t.time u.time ht.time_fits hu.time_fits time;
        same_key = key;
      },
      rest,
    )

-- Two encodable transactions with the same signed bytes agree in sender, receiver, amount, fee,
-- nonce and time, and their keys have the same bytes. A nil key and an empty one, which `Verify`
-- tells apart, are not told apart here, nor is anything said of the signatures.
pub signing_bytes-inj :
    (t u : Tx) → IsEncodable t → IsEncodable u → signing_bytes t ≡ signing_bytes u → SameSigned t u
signing_bytes-inj t u ht hu e =
    (layout-field t u ht hu (sym (signing_bytes-layout t) ∙ e ∙ signing_bytes-layout u)).0

-- Two encodable transactions with the same full encoding, the one that is hashed, agree in sender,
-- receiver, amount, fee, nonce and time, and their keys and their signatures have the same bytes. A
-- nil slice and an empty one, which `Verify` tells apart, are not told apart here.
pub encode-inj :
    (t u : Tx)
    → IsEncodable t
    → IsEncodable u
    → encode false t ≡ encode false u
    → SameSigned t u × (slice_bytes t.sig ≡ slice_bytes u.sig)
encode-inj t u ht hu e =
    let (same, rest) = layout-field t u ht hu (sym (encode-layout t) ∙ e ∙ encode-layout u) in
    (same, sigs rest)
  where
    sigs :
        prefixed (slice_bytes t.sig) ≡ prefixed (slice_bytes u.sig)
        → slice_bytes t.sig ≡ slice_bytes u.sig
    sigs q =
        (prefixed-field (slice_bytes t.sig) (slice_bytes u.sig) {r = []} {s = []} ht.sig_fits
          hu.sig_fits (ap (λ (b : Bytes). b ++ []) q)).0
