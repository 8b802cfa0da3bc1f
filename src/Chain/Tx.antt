-- ===== src/Chain/Tx.antt =====
-- internal/chain/tx.go and hash.go: transactions, their encoding, hash and intrinsic checks.
pub mod Encoding
use blu_gold.Base.{
  ℕ, Bool, true, false, not, ◌&&◌, ◌||◌, Option, none, some, [], ◌∷◌, ◌++◌, Bytes, bytes_eq, length,
  ◌==◌, if◌then◌else◌, Result, ok, err, ◌>>=◌, ◌>>◌, fail_if,
}
use blu_gold.Base.Int.{ℤ}
use blu_gold.Crypto.Interface.{Primitives}
use blu_gold.Crypto.{
  Address, coinbase_address, public_key_size, address_from_pub_key, is_valid, verify_signature,
}
use blu_gold.Chain.Codec.{write_u64, write_i64, write_string, write_bytes}

-- A 32-byte digest.
abbrev pub Hash : Type 0
Hash = Bytes

-- A nil slice is `none`: `Verify` tells it from an empty one, and the encoding does not.
pub record Tx : Type 0 where
  pub from : Address
  pub to : Address
  pub amount : ℕ
  pub fee : ℕ
  pub nonce : ℕ
  pub time : ℤ
  pub pub_key : Option Bytes
  pub sig : Option Bytes

-- The bytes of a slice, nil or not.
abbrev pub slice_bytes : Option Bytes → Bytes
slice_bytes none = []
slice_bytes (some b) = b

abbrev pub is_set : Option Bytes → Bool
is_set none = false
is_set (some b) = true

unfoldable pub encode : Bool → Tx → Bytes
encode signing t =
    let buf = write_string [] t.from in
    let buf = write_string buf t.to in
    let buf = write_u64 buf t.amount in
    let buf = write_u64 buf t.fee in
    let buf = write_u64 buf t.nonce in
    let buf = write_i64 buf t.time in
    let buf = write_bytes buf (slice_bytes t.pub_key) in
    if signing then buf else write_bytes buf (slice_bytes t.sig)

unfoldable pub signing_bytes : Tx → Bytes
signing_bytes t = encode true t

unfoldable pub is_coinbase : Tx → Bool
is_coinbase t = bytes_eq t.from coinbase_address

pub data TxError : Type 0 where
  coinbase_signed coinbase_fee bad_coinbase_output empty_coinbase : TxError
  bad_from bad_to zero_tx bad_key_length key_mismatch bad_signature : TxError

module _ ⦃p : Primitives⦄ where
  unfoldable pub hash_bytes : Bytes → Hash
  hash_bytes b = p.sha256 b

  unfoldable pub tx_hash : Tx → Hash
  tx_hash t = hash_bytes (encode false t)

  -- The checks of a coinbase.
  unfoldable pub verify_coinbase : Tx → Result TxError (Unit {0})
  verify_coinbase t = do
    fail_if (is_set t.pub_key || is_set t.sig) coinbase_signed
    fail_if (not (t.fee == 0)) coinbase_fee
    fail_if (bytes_eq t.to coinbase_address || not (is_valid t.to)) bad_coinbase_output
    fail_if (t.amount == 0) empty_coinbase

  -- The checks of any other transaction.
  unfoldable pub verify_transfer : Tx → Result TxError (Unit {0})
  verify_transfer t = do
    fail_if (not (is_valid t.from)) bad_from
    fail_if (not (is_valid t.to)) bad_to
    fail_if (t.amount == 0 && t.fee == 0) zero_tx
    fail_if (not (length (slice_bytes t.pub_key) == public_key_size)) bad_key_length
    fail_if (not (bytes_eq (address_from_pub_key (slice_bytes t.pub_key)) t.from)) key_mismatch
    fail_if (not (verify_signature (slice_bytes t.pub_key) (signing_bytes t) (slice_bytes t.sig)))
        bad_signature

  -- `Tx.Verify`
  unfoldable pub verify : Tx → Result TxError (Unit {0})
  verify t = if is_coinbase t then verify_coinbase t else verify_transfer t
