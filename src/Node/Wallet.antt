-- ===== src/Node/Wallet.antt =====
-- The node for its owner: sending, submitting a mined block, and the queries.
pub mod Laws
use blu_gold.Base.{
  ℕ, zero, suc, ◌+◌, ◌-◌, Bool, true, false, not, ◌&&◌, ◌||◌, Option, none, some, List, [], ◌∷◌,
  Bytes, length, ltb, leb, ◌==◌, if◌then◌else◌, add_u64, Result, ok, err,
}
use blu_gold.Base.Int.{ℤ, pos, leb_ℤ, pos_part}
use blu_gold.Base.Dict.{lookup}
use blu_gold.Crypto.Interface.{Primitives}
use blu_gold.Crypto.{Address, is_valid, address_from_pub_key}
use blu_gold.Chain.Params.{reward_at}
use blu_gold.Chain.Tx.{Tx, Hash, tx_hash, signing_bytes}
use blu_gold.Chain.Block.{Block, zero_hash}
use blu_gold.State.Monad.{Account, State}
use blu_gold.State.{account, accounts}
use blu_gold.Node.Data.{Entry, Node, NodeError}
use blu_gold.Node.Sync.{active_entry}
use blu_gold.Node.Insert.{insert_block}
use blu_gold.Node.Transactions.{pending_state, add_tx}

-- `Wallet`: the public key, and `ed25519.Sign` with the private key.
pub record Wallet : Type 0 where
  pub pub_key : Bytes
  pub sign : Bytes → Bytes

pub data SendError : Type 0 where
  no_wallet invalid_destination : SendError
  not_added : NodeError → SendError

-- `TipHeight`
unfoldable pub tip_height : Node → ℕ
tip_height n = elim n.tip [ none ↦ 0 | some tip ↦ tip.block.height ]

-- `GetAccount`
unfoldable pub get_account : Address → Node → Account
get_account a n = account a n.state

-- `MempoolSize`
unfoldable pub mempool_size : Node → ℕ
mempool_size n = length n.mempool_tx

-- `supply += acct.Balance`
unfoldable pub sum_balances : ℕ → State → ℕ
sum_balances supply [] = supply
sum_balances supply ((_, acct) ∷ accts) = sum_balances (add_u64 supply acct.balance) accts

-- `Info`, less the names and what the switch and the miner report.
pub record Info : Type 0 where
  pub height : ℕ
  pub tip : Hash
  pub difficulty : ℕ
  pub next_reward : ℕ
  pub supply : ℕ
  pub address : Address
  pub balance : ℕ
  pub mempool : ℕ
  pub target_time : ℤ

-- `BlockSummary`
pub record BlockSummary : Type 0 where
  pub height : ℕ
  pub hash : Hash
  pub time : ℤ
  pub difficulty : ℕ
  pub miner : Address
  pub tx_count : ℕ
  pub amount : ℕ

unfoldable pub first_amount : List Tx → ℕ
first_amount [] = 0
first_amount (t ∷ ts) = t.amount

unfoldable pub summary_of : Entry → BlockSummary
summary_of e = record {
  height = e.block.height;
  hash = e.hash;
  time = e.block.time;
  difficulty = e.block.difficulty;
  miner = e.block.miner;
  tx_count = length e.block.txs;
  amount = first_amount e.block.txs;
}

-- The loop of `RecentBlocks`, down from height `h` for up to `count` blocks.
unfoldable pub recent_from : ℕ → ℕ → Node → List BlockSummary
recent_from zero h n = []
recent_from (suc count) h n = elim (active_entry h n) [
  | none ↦ []
  | some e ↦ summary_of e ∷ elim (h == 0) [ true ↦ [] | false ↦ recent_from count (h - 1) n ]
]

-- `RecentBlocks`
unfoldable pub recent_blocks : ℤ → Node → List BlockSummary
recent_blocks count n = elim n.tip [
  | none ↦ []
  | some tip ↦ recent_from (if leb_ℤ count (pos 0) then 10 else pos_part count) tip.block.height n
]

module _ ⦃c : Primitives⦄ where
  -- `Wallet.Address`
  unfoldable pub address_of : Wallet → Address
  address_of w = address_from_pub_key w.pub_key

  -- `WalletAddress`
  unfoldable pub wallet_address : Option Wallet → Address
  wallet_address none = []
  wallet_address (some w) = address_of w

  -- The transaction of `Send` before it is signed.
  unfoldable pub unsigned_tx : Wallet → Address → ℕ → ℕ → ℕ → ℤ → Tx
  unsigned_tx w to amount fee nonce now = record {
    from = address_of w;
    to = to;
    amount = amount;
    fee = fee;
    nonce = nonce;
    time = now;
    pub_key = some w.pub_key;
    sig = none;
  }

  -- The transaction of `Send`.
  unfoldable pub signed_tx : Wallet → Address → ℕ → ℕ → ℕ → ℤ → Tx
  signed_tx w to amount fee nonce now =
      let t = unsigned_tx w to amount fee nonce now in
      record t { sig = some (w.sign (signing_bytes t)) }

  -- The end of `Send`.
  unfoldable pub sent_hash : Tx → Result NodeError (Unit {0}) × Node → Result SendError Hash × Node
  sent_hash t (ok _, n) = (ok (tx_hash t), n)
  sent_hash t (err e, n) = (err (not_added e), n)

  -- `Send`
  unfoldable pub send : Option Wallet → Address → ℕ → ℕ → ℤ → Node → Result SendError Hash × Node
  send none to amount fee now n = (err no_wallet, n)
  send (some w) to amount fee now n =
      if not (is_valid to)
      then (err invalid_destination, n)
      else (let (ps, m) = pending_state n in
          let t = signed_tx w to amount fee (account (address_of w) ps).nonce now in
          sent_hash t (add_tx t [] m))

  -- `SubmitSolution`
  unfoldable pub submit_solution : ℤ → Block → Node → Result NodeError (Unit {0}) × Node
  submit_solution now b n = insert_block now false true [] b n

  -- `Info`; nothing where `RewardAt` panics.
  unfoldable pub info : Option Wallet → Node → Option Info
  info w n = elim (reward_at n.params (add_u64 (tip_height n) 1)) [
    | none ↦ none
    | some reward ↦ some (record {
      height = tip_height n;
      tip = elim n.tip [ none ↦ zero_hash | some tip ↦ tip.hash ];
      difficulty = elim n.tip [ none ↦ 0 | some tip ↦ tip.block.difficulty ];
      next_reward = reward;
      supply = sum_balances 0 (accounts n.state);
      address = wallet_address w;
      balance = (account (wallet_address w) n.state).balance;
      mempool = length n.mempool_tx;
      target_time = n.params.target_block_time;
    })
  ]
