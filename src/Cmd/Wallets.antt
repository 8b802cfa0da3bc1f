-- ===== src/Cmd/Wallets.antt =====
-- The wallet file of internal/crypto/crypto.go, and the commands that make one. JSON and the calls
-- of the file system are parameters.
use blu_gold.Base.{
  ℕ, Bool, not, Option, none, some, Bytes, length, ◌==◌, if◌then◌else◌, Result, ok, err,
}

-- JSON of a private key; nothing where it fails.
pub record KeyJson : Type 0 where
  pub marshal : Bytes → Option Bytes
  pub unmarshal : Bytes → Option Bytes

-- `wallet.json`: not there, not readable, or with its bytes.
pub data WalletFile : Type 0 where
  missing unreadable : WalletFile
  holds : Bytes → WalletFile

pub data WalletError : Type 0 where
  not_exist read_failed not_json bad_key_size : WalletError
  no_random no_directory no_write no_rename : WalletError

-- `ed25519.PrivateKeySize`
abbrev pub private_key_size : ℕ
private_key_size = 64

-- What the steps of `SaveWallet` give: `MkdirAll`, `WriteFile` and `Rename`.
pub record SaveSteps : Type 0 where
  pub made_dir : Bool
  pub wrote : Bool
  pub renamed : Bool

-- The end of `LoadWallet`.
unfoldable pub check_key : Option Bytes → Result WalletError Bytes
check_key none = err not_json
check_key (some priv) = if length priv == private_key_size then ok priv else err bad_key_size

-- `fatalf`, or the private key.
pub data WalletExit : Type 0 where
  loaded created : Bytes → WalletExit
  corrupt already_there : WalletExit
  failed : WalletError → WalletExit

unfoldable pub saved : Bytes → Result WalletError (Unit {0}) × WalletFile → WalletExit × WalletFile
saved priv (err e, file) = (failed e, file)
saved priv (ok _, file) = (created priv, file)

module _ (json : KeyJson) where
  -- `LoadWallet`
  unfoldable pub load_wallet : WalletFile → Result WalletError Bytes
  load_wallet missing = err not_exist
  load_wallet unreadable = err read_failed
  load_wallet (holds text) = check_key (json.unmarshal text)

  -- `SaveWallet`; the file is replaced by the rename alone.
  unfoldable pub save_wallet :
      SaveSteps → Bytes → WalletFile → Result WalletError (Unit {0}) × WalletFile
  save_wallet steps priv file = elim (json.marshal priv) [
    | none ↦ (err not_json, file)
    | some text ↦
        if not steps.made_dir
        then (err no_directory, file)
        else if not steps.wrote
        then (err no_write, file)
        else if not steps.renamed
        then (err no_rename, file)
        else (ok tt, holds text)
  ]

  -- `GenerateWallet` for what the random source gives, and `SaveWallet`.
  unfoldable pub create_wallet : SaveSteps → Option Bytes → WalletFile → WalletExit × WalletFile
  create_wallet steps none file = (failed no_random, file)
  create_wallet steps (some priv) file = saved priv (save_wallet steps priv file)

  -- `loadOrCreateWallet`
  unfoldable pub load_or_create_wallet :
      SaveSteps → Option Bytes → WalletFile → WalletExit × WalletFile
  load_or_create_wallet steps random file = elim (load_wallet file) [
    | ok priv ↦ (loaded priv, file)
    | err not_exist ↦ create_wallet steps random file
    | err _ ↦ (corrupt, file)
  ]

  -- `cmdKeygen`
  unfoldable pub cmd_keygen : Bool → SaveSteps → Option Bytes → WalletFile → WalletExit × WalletFile
  cmd_keygen force steps random file = elim (load_wallet file) [
    | ok priv ↦ if not force then (already_there, file) else create_wallet steps random file
    | err _ ↦ create_wallet steps random file
  ]
