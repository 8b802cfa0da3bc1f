-- ===== src/State/Monad.antt =====
-- The account map, and what a method of `State` does: it ends, fails with an error or panics, and
-- what it wrote before that stays written.
use blu_gold.Base.{ℕ, Bool, true, false, Result, ok, err}
use blu_gold.Base.Dict.{Dict}
use blu_gold.Chain.Tx.{TxError}

pub record Account : Type 0 where
  pub balance : ℕ
  pub nonce : ℕ

-- `Account{}`
abbrev pub empty_account : Account
empty_account = record { balance = 0; nonce = 0 }

abbrev pub State : Type 0
State = Dict Account

pub data StateError : Type 0 where
  apply_coinbase_tx bad_nonce spend_overflow insufficient_funds : StateError
  block_without_coinbase fee_overflow wrong_coinbase_amount : StateError
  tx_invalid coinbase_invalid : TxError → StateError

pub data Outcome (A : Type 0) : Type 0 where
  done : A → Outcome A
  failed : StateError → Outcome A
  panic : Outcome A

abbrev pub Action : Type 0 → Type 0
Action A = State → Outcome A × State

abbrev pub pure : {A : Type 0} → A → Action A
pure a s = (done a, s)

infixl 5 ◌>>=◌ ◌>>◌
abbrev pub ◌>>=◌ : {A B : Type 0} → Action A → (A → Action B) → Action B
◌>>=◌ m f s =
    let (r, s') = m s in
    elim r [ done a ↦ f a s' | failed e ↦ (failed e, s') | panic ↦ (panic, s') ]

abbrev pub ◌>>◌ : {B : Type 0} → Action (Unit {0}) → Action B → Action B
m >> k = m >>= λ _. k

abbrev pub raise_if : Bool → StateError → Action (Unit {0})
raise_if true e s = (failed e, s)
raise_if false e s = (done tt, s)

-- `if err := check; err != nil { return wrapped }`
abbrev pub or_raise : Result TxError (Unit {0}) → (TxError → StateError) → Action (Unit {0})
or_raise (ok _) wrap s = (done tt, s)
or_raise (err e) wrap s = (failed (wrap e), s)

abbrev pub or_panic : Bool → Action (Unit {0})
or_panic true s = (done tt, s)
or_panic false s = (panic, s)
