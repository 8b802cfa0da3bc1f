-- ===== src/State/Transfer.antt =====
-- `Credit` and `ApplyTx`: what they do to the accounts and to the money.
use blu_gold.Base.{
  ℕ, ◌+◌, ◌-◌, ◌≤◌, ◌<◌, ◌≡◌, refl, ◌⊎◌, ◌∙◌, ltb, inl, inr, false, arith, bytes_eq, bytes_eq→eq,
  if◌then◌else◌, u64_mod, IsU64, add_u64, Bool-cases, ◌==◌, ==_iff,
}
use native.Mathlib.Decide.{ℕ_discrete, dec_le}
use blu_gold.Base.Dict.{insert, lookup-insert}
use blu_gold.Crypto.{Address}
use blu_gold.Chain.Tx.{Tx, is_coinbase}
use blu_gold.State.Monad.{
  Account, State, empty_account, Outcome, done, failed, panic, StateError, apply_coinbase_tx,
  spend_overflow, bad_nonce, insufficient_funds,
}
use blu_gold.State.{get, account, pay, credit, apply_tx}
use blu_gold.State.Total.{total, account-insert, total-insert, balance-le-total}

-- The state after `get`: the account is there, and nothing else has changed.
pub touch : Address → State → State
touch a s = (get a s).1

pub get_lem : (a : Address) (s : State) → get a s ≡ (done (account a s), touch a s)
unfolding get account touch
get_lem a s = ground arith

pub account-touch : (a b : Address) (s : State) → account b (touch a s) ≡ account b s
unfolding get account touch
account-touch a b s = ground (arith, lookup-insert a b empty_account s, bytes_eq→eq a b)

pub total-touch : (a : Address) (s : State) → total (touch a s) ≡ total s
unfolding get account touch
total-touch a s = ground (arith, total-insert a empty_account s)

-- The account of `a` with `amt` more.
abbrev pub paid : Account → ℕ → Account
paid acct amt = record { balance = acct.balance + amt; nonce = acct.nonce }

-- Where the sum of the balances leaves room, a credit ends, adds the amount to the account and to
-- the total, and touches no other account.
abbrev pub Credits : Address → ℕ → State → Outcome (Unit {0}) × State → Type 0
Credits a amt s (r, s') =
    (r ≡ done tt)
    × (total s' ≡ total s + amt)
    × ((b : Address)
        → account b s' ≡ (if bytes_eq a b then paid (account a s) amt else account b s))

-- What `pay` writes, where the balance does not wrap.
pay_lem :
    (a : Address) (amt : ℕ) (s : State)
    → total s + amt < u64_mod
    → pay a amt s ≡ (done tt, insert a (paid (account a s) amt) (touch a s))
unfolding pay
pay_lem a amt s h = ground (arith, get_lem a s, balance-le-total a s)

pay-Credits :
    (a : Address) (amt : ℕ) (s : State) → total s + amt < u64_mod → Credits a amt s (pay a amt s)
pay-Credits a amt s h = rw (pay_lem a amt s h) (refl, sum, each)
  where
    written : Account
    written = paid (account a s) amt

    sum : total (insert a written (touch a s)) ≡ total s + amt
    sum = ground (arith, total-insert a written (touch a s), account-touch a a s, total-touch a s)

    each :
        (b : Address)
        → account b (insert a written (touch a s)) ≡ (if bytes_eq a b then written else account b s)
    each b = rw (account-insert, account-touch)

pub credit-Credits :
    (a : Address) (amt : ℕ) (s : State) → total s + amt < u64_mod → Credits a amt s (credit a amt s)
unfolding credit
credit-Credits a amt s h = elim (Bool-cases (amt == 0)) [
  | inl z ↦ rw z (refl, omega (arith, (==_iff amt 0).0 z), λ b. ground (arith, bytes_eq→eq a b))
  | inr nz ↦ rw nz (pay-Credits a amt s h)
]

-- The sender's account behind a transaction.
abbrev pub spent : Account → Tx → Account
spent acct t = record { balance = acct.balance - (t.amount + t.fee); nonce = add_u64 acct.nonce 1 }

-- What the protocol asks of a transaction at a state.
pub record Accepts (t : Tx) (s : State) : Type 0 where
  pub transfer : is_coinbase t ≡ false
  pub in_order : t.nonce ≡ (account t.from s).nonce
  pub covered : t.amount + t.fee ≤ (account t.from s).balance

-- An account before the amount is paid out.
abbrev pub debited : Tx → State → Address → Account
debited t s b = if bytes_eq t.from b then spent (account t.from s) t else account b s

-- An account behind the transaction; the sender may be the receiver.
abbrev pub moved : Tx → State → Address → Account
moved t s b = if bytes_eq t.to b then paid (debited t s t.to) t.amount else debited t s b

-- The outcome of `ApplyTx` on every branch.
abbrev pub Transfers : Tx → State → Outcome (Unit {0}) × State → Type 0
Transfers t s (done _, s') =
    Accepts t s × (total s' + t.fee ≡ total s) × ((b : Address) → account b s' ≡ moved t s b)
Transfers t s (failed e, s') =
    (¬ Accepts t s) × (total s' ≡ total s) × ((b : Address) → account b s' ≡ account b s)
Transfers t s (panic, s') = ⊥

module _ (t : Tx) (s : State) (ha : IsU64 t.amount) (hf : IsU64 t.fee) (hs : IsU64 (total s)) where
  debit : State
  debit = insert t.from (spent (account t.from s) t) (touch t.from s)

  account-debit : (b : Address) → account b debit ≡ debited t s b
  unfolding debit
  account-debit b = rw (account-insert, account-touch)

  total-debit : Accepts t s → total debit + (t.amount + t.fee) ≡ total s
  unfolding debit
  total-debit h = ground (
    arith,
    total-insert t.from (spent (account t.from s) t) (touch t.from s),
    account-touch t.from t.from s,
    total-touch t.from s,
  )

  apply_tx_accepted : Accepts t s → apply_tx t s ≡ credit t.to t.amount debit
  unfolding apply_tx debit
  apply_tx_accepted h = ground (arith, get_lem t.from s, balance-le-total t.from s)

  -- A refusal leaves every account as it was.
  abbrev Refusal : Type 0
  Refusal =
      (e : StateError) × (s' : State) × (apply_tx t s ≡ (failed e, s'))
      × (total s' ≡ total s)
      × ((b : Address) → account b s' ≡ account b s)

  refused_behind_get : (e : StateError) → apply_tx t s ≡ (failed e, touch t.from s) → Refusal
  refused_behind_get e q =
      (e, touch t.from s, q, total-touch t.from s, λ b. account-touch t.from b s)

  apply_tx_refused : ¬ Accepts t s → Refusal
  unfolding apply_tx
  apply_tx_refused h = elim (Bool-cases (is_coinbase t)) [
    | inl coinbase ↦ (apply_coinbase_tx, s, rw coinbase refl, refl, λ b. refl)
    | inr transfer ↦ elim (Bool-cases (t.nonce == (account t.from s).nonce)) [
      | inr late ↦ refused_behind_get bad_nonce (ground (arith, get_lem t.from s))
      | inl in_order ↦ elim (Bool-cases (ltb (add_u64 t.amount t.fee) t.amount)) [
        | inl wraps ↦ refused_behind_get spend_overflow (ground (arith, get_lem t.from s))
        | inr fits ↦ elim (Bool-cases (ltb (account t.from s).balance (add_u64 t.amount t.fee))) [
          | inl short ↦ refused_behind_get insufficient_funds (ground (arith, get_lem t.from s))
          | inr covered ↦ absurd (
              h (record {
                transfer = transfer;
                in_order = (==_iff _ _).0 in_order;
                covered = ground arith;
              }))
        ]
      ]
    ]
  ]

  accepts? : Accepts t s ⊎ (¬ Accepts t s)
  accepts? = elim (Bool-cases (is_coinbase t)) [
    | inl coinbase ↦ inr (λ a. cc (a.transfer))
    | inr transfer ↦ elim (ℕ_discrete t.nonce (account t.from s).nonce) [
      | no late ↦ inr (λ a. late a.in_order)
      | yes in_order ↦ elim (dec_le (t.amount + t.fee) (account t.from s).balance) [
        | no short ↦ inr (λ a. short a.covered)
        | yes covered ↦ inl (record { transfer = transfer; in_order = in_order; covered = covered })
      ]
    ]
  ]

  Credits→Transfers :
      Accepts t s
      → (q : Outcome (Unit {0}) × State) → Credits t.to t.amount debit q
      → Transfers t s q
  Credits→Transfers a (done _, s') (r, sum, each) =
      (a, omega (arith, total-debit a, sum), λ b. each b ∙ rw (account-debit t.to, account-debit b))
  Credits→Transfers a (failed e, s') (r, sum, each) = absurd (cc r)
  Credits→Transfers a (panic, s') (r, sum, each) = absurd (cc r)

  -- `ApplyTx` on uint64 fields, at a state whose money fits 64 bits. It never panics. It ends
  -- exactly where the transaction is no coinbase, has the sender's nonce and is covered by the
  -- balance: then the sender pays amount and fee and moves to the next nonce, the receiver (who may
  -- be the sender) gets the amount, no other account changes, and the total falls by the fee.
  -- Otherwise it fails, and every account and the total are as before.
  pub apply_tx-Transfers : Transfers t s (apply_tx t s)
  apply_tx-Transfers = elim accepts? [
    | inr no_fit ↦ let (e, s', q, sum, same) = apply_tx_refused no_fit in rw q (no_fit, sum, same)
    | inl a ↦ rw (apply_tx_accepted a) (
        Credits→Transfers a _ (
          credit-Credits t.to t.amount debit
            (omega (arith, total-debit a, balance-le-total t.from s))))
  ]
