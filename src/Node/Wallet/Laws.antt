-- ===== src/Node/Wallet/Laws.antt =====
-- What Send builds, and the supply that Info reports.
use blu_gold.Base.{
  ℕ, ◌+◌, ◌<◌, ◌≡◌, ◌%◌, true, Option, some, [], ◌∷◌, arith, Bytes, bytes_eq_refl, ok, length,
  IsU64, u64_mod, add_u64,
}
use blu_gold.Base.Int.{ℤ}
use blu_gold.Crypto.Interface.{Primitives}
use blu_gold.Crypto.{
  Address, is_valid, address_from_pub_key, public_key_size, signature_size, verify_signature,
}
use blu_gold.Crypto.AddressLaws.{address_from_pub_key-is_valid, is_valid-not_coinbase}
use blu_gold.Chain.Tx.{encode, signing_bytes, is_coinbase, verify, verify_transfer}
use blu_gold.State.Monad.{State}
use blu_gold.State.{accounts}
use blu_gold.State.Total.{total}
use blu_gold.Node.Data.{Node}
use blu_gold.Node.Wallet.{Wallet, Info, address_of, unsigned_tx, signed_tx, sum_balances, info}

sum_balances-accounts :
    (s : State) (k : ℕ) → IsU64 k → sum_balances k (accounts s) ≡ (k + total s) % u64_mod
unfolding sum_balances accounts
sum_balances-accounts [] k h = omega arith
sum_balances-accounts ((a, acct) ∷ s) k h = ground (
  arith,
  sum_balances-accounts s k h,
  sum_balances-accounts s (add_u64 k acct.balance) (omega arith),
)

module _ ⦃c : Primitives⦄ where
  -- A wallet with a key of the right length, whose signatures have the right length and are valid.
  pub record Signs (w : Wallet) : Type 0 where
    pub key_length : length w.pub_key ≡ public_key_size
    pub sig_length : (msg : Bytes) → length (w.sign msg) ≡ signature_size
    pub sig_valid : (msg : Bytes) → c.ed25519_verify w.pub_key msg (w.sign msg) ≡ true

  -- The transaction that `Send` signs for a wallet that signs, to a valid address, passes `Verify`,
  -- unless amount and fee are both zero.
  pub signed_tx-verify :
      (w : Wallet) (to : Address) (amount fee nonce : ℕ) (now : ℤ)
      → Signs w
      → is_valid to ≡ true
      → 0 < amount + fee
      → verify (signed_tx w to amount fee nonce now) ≡ ok tt
  unfolding verify verify_transfer signed_tx unsigned_tx address_of is_coinbase verify_signature
      signing_bytes encode
  signed_tx-verify w to amount fee nonce now h v pays =
      let own = address_from_pub_key-is_valid w.pub_key h.key_length in
      ground (
        arith,
        v,
        own,
        is_valid-not_coinbase (address_from_pub_key w.pub_key) own,
        bytes_eq_refl (address_from_pub_key w.pub_key),
        h.key_length,
        h.sig_length (signing_bytes (unsigned_tx w to amount fee nonce now)),
        h.sig_valid (signing_bytes (unsigned_tx w to amount fee nonce now)),
      )

  -- The supply that `Info` reports is the sum of all balances, modulo 2^64.
  pub info-supply :
      (w : Option Wallet) (n : Node) (i : Info)
      → info w n ≡ some i
      → i.supply ≡ total n.state % u64_mod
  unfolding info
  info-supply w n i e = ground (arith, e, sum_balances-accounts n.state 0 (omega arith))
