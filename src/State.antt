-- ===== src/State.antt =====
-- internal/state/state.go: account balances and nonces, and the application of blocks.
pub mod Monad
pub mod Total
pub mod Transfer
pub mod Matching
pub mod Once
pub mod Twin
pub mod BlockMoney
use blu_gold.Base.{
  ℕ, ◌+◌, ◌-◌, Bool, true, false, not, ◌&&◌, ◌||◌, Option, none, some, List, [], ◌∷◌, bytes_eq, ltb,
  ◌==◌, if◌then◌else◌, add_u64, Result, ok, err,
}
use blu_gold.Base.Dict.{Dict, lookup, insert}
use blu_gold.Crypto.Interface.{Primitives}
use blu_gold.Crypto.{Address}
use blu_gold.Chain.Params.{Params, reward_at}
use blu_gold.Chain.Tx.{Tx, TxError, is_coinbase, verify}
use blu_gold.Chain.Block.{Block, starts_with_coinbase}
use blu_gold.State.Monad.{
  Account, empty_account, State, StateError, apply_coinbase_tx, bad_nonce, spend_overflow,
  insufficient_funds, block_without_coinbase, tx_invalid, fee_overflow, coinbase_invalid,
  wrong_coinbase_amount, Outcome, done, failed, panic, Action, pure, raise_if, or_raise, or_panic,
  ◌>>=◌, ◌>>◌,
}

-- `State.get`: an account that is missing is made.
unfoldable pub get : Address → Action Account
get a s = elim (lookup a s) [
  | none ↦ (done empty_account, insert a empty_account s)
  | some acct ↦ (done acct, s)
]

-- A write through the pointer that `get` returned.
abbrev pub put : Address → Account → Action (Unit {0})
put a acct s = (done tt, insert a acct s)

-- `State.Account`
unfoldable pub account : Address → State → Account
account a s = elim (lookup a s) [ none ↦ empty_account | some acct ↦ acct ]

-- `State.Accounts`
unfoldable pub accounts : State → State
accounts [] = []
accounts ((a, acct) ∷ s) =
    if not (acct.balance == 0) || not (acct.nonce == 0) then (a, acct) ∷ accounts s else accounts s

-- The rest of `State.Credit`, for an amount that is not zero.
unfoldable pub pay : Address → ℕ → Action (Unit {0})
pay a amt = do
  acct ← get a
  let sum = add_u64 acct.balance amt
  or_panic (not (ltb sum acct.balance))
  put a (record acct { balance = sum })

-- `State.Credit`
unfoldable pub credit : Address → ℕ → Action (Unit {0})
credit a amt s = if amt == 0 then (done tt, s) else pay a amt s

-- `State.ApplyTx`
unfoldable pub apply_tx : Tx → Action (Unit {0})
apply_tx t = do
  raise_if (is_coinbase t) apply_coinbase_tx
  acct ← get t.from
  raise_if (not (t.nonce == acct.nonce)) bad_nonce
  let spend = add_u64 t.amount t.fee
  raise_if (ltb spend t.amount) spend_overflow
  raise_if (ltb acct.balance spend) insufficient_funds
  put t.from (record { balance = acct.balance - spend; nonce = add_u64 acct.nonce 1 })
  credit t.to t.amount

module _ ⦃c : Primitives⦄ where
  -- `State.ValidateTx`
  unfoldable pub validate_tx : Tx → Action (Unit {0})
  validate_tx t = do
    or_raise (verify t) tx_invalid
    acct ← get t.from
    raise_if (not (t.nonce == acct.nonce)) bad_nonce
    raise_if (ltb acct.balance (add_u64 t.amount t.fee)) insufficient_funds

  -- The loop of `ApplyBlock` over `b.Txs[1:]`, with the fees so far.
  unfoldable pub apply_rest : List Tx → ℕ → Action ℕ
  apply_rest [] fee_sum = pure fee_sum
  apply_rest (t ∷ ts) fee_sum = do
    or_raise (verify t) tx_invalid
    apply_tx t
    raise_if (ltb (add_u64 fee_sum t.fee) t.fee) fee_overflow
    apply_rest ts (add_u64 fee_sum t.fee)

  -- The end of `ApplyBlock`: the coinbase is paid last.
  unfoldable pub pay_coinbase : Tx → Option ℕ → ℕ → Action (Unit {0})
  pay_coinbase cb none fee_sum = or_panic false
  pay_coinbase cb (some reward) fee_sum = do
    raise_if (not (cb.amount == add_u64 reward fee_sum)) wrong_coinbase_amount
    credit cb.to cb.amount

  unfoldable pub apply_txs : List Tx → ℕ → Params → Action (Unit {0})
  apply_txs [] height p = raise_if true block_without_coinbase
  apply_txs (cb ∷ rest) height p = do
    raise_if (not (is_coinbase cb)) block_without_coinbase
    fee_sum ← apply_rest rest 0
    or_raise (verify cb) coinbase_invalid
    pay_coinbase cb (reward_at p height) fee_sum

  -- `State.ApplyBlock`
  unfoldable pub apply_block : Block → Params → Action (Unit {0})
  unfolding apply_txs
  apply_block b p = apply_txs b.txs b.height p
