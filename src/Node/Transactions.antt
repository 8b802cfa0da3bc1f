-- ===== src/Node/Transactions.antt =====
-- Transactions and mining candidates: `AddTx`, `Send` and `BuildCandidate`.
pub mod Full
pub mod Added
pub mod Picked
pub mod Candidate
use blu_gold.Base.{
  ℕ, ◌+◌, ◌-◌, ◌^◌, Bool, true, false, not, ◌&&◌, ◌||◌, Option, none, some, List, [], ◌∷◌, ◌++◌,
  map, take, Bytes, length, ltb, leb, ◌==◌, if◌then◌else◌, Result, ok, err, add_u64,
}
use blu_gold.Base.Int.{ℤ, pos, negsuc, ◌+ℤ◌, ◌-ℤ◌, ltb_ℤ, leb_ℤ, pos_part, wrap_i64}
use blu_gold.Base.Dict.{Dict, lookup, insert, contains}
use blu_gold.Crypto.Interface.{Primitives}
use blu_gold.Crypto.{Address, is_valid}
use blu_gold.Chain.Params.{reward_at}
use blu_gold.Chain.Tx.{Tx, Hash, tx_hash, signing_bytes}
use blu_gold.Chain.Block.{Block, merkle_root_of, zero_hash}
use blu_gold.Chain.Difficulty.{next_difficulty}
use blu_gold.State.Monad.{State, Outcome, done, failed, panic}
use blu_gold.State.{account, apply_tx, validate_tx}
use blu_gold.Node.Data.{
  Entry, Node, NodeError, mempool_full, tx_rejected, died, sent_tx, max_mempool, seen_reset_at,
  emit,
}
use blu_gold.Node.Tree.{anchor_of}
use blu_gold.Node.Pool.{pooled, sort_stable}
use blu_gold.Node.Switch.{crash}

-- The replay of the mempool in `pendingStateLocked`: an error is skipped, a panic ends the process.
unfoldable pub pend : (State → State × Bool) → Outcome (Unit {0}) × State → State × Bool
pend rest (done _, s) = rest s
pend rest (failed e, s) = rest s
pend rest (panic, s) = (s, true)

unfoldable pub pend_all : List (Hash × Tx) → State → State × Bool
pend_all [] s = (s, false)
pend_all ((h, t) ∷ rest) s = pend (pend_all rest) (apply_tx t s)

unfoldable pub recompute_pending : Node → State × Node
recompute_pending n =
    let (work, fault) = pend_all (pooled n.mempool_tx n.mempool_order) n.state in
    (work, record n { pending = some work; pending_dirty = false; crashed = n.crashed || fault })

-- `pendingStateLocked`. The state that comes back is the one that `n.pending` points to.
unfoldable pub pending_state : Node → State × Node
pending_state n = elim n.pending [
  | none ↦ recompute_pending n
  | some s ↦ if n.pending_dirty then recompute_pending n else (s, n)
]

-- `markSeenTx`
unfoldable pub mark_seen : Hash → Dict (Unit {0}) → Dict (Unit {0})
mark_seen h seen =
    let more = insert h tt seen in if ltb seen_reset_at (length more) then [] else more

-- More fees first, then the older.
unfoldable pub pays_more : Tx → Tx → Bool
pays_more t u = if not (t.fee == u.fee) then ltb u.fee t.fee else ltb_ℤ t.time u.time

-- The loop of `BuildCandidate`: what applies is kept; nothing where `ApplyTx` panics.
unfoldable pub pick :
    (State → Option (List Tx)) → Tx → Outcome (Unit {0}) × State → Option (List Tx)
pick rest t (done _, work) = elim (rest work) [ none ↦ none | some txs ↦ some (t ∷ txs) ]
pick rest t (failed e, work) = rest work
pick rest t (panic, work) = none

unfoldable pub pick_all : List Tx → State → Option (List Tx)
pick_all [] work = some []
pick_all (t ∷ ts) work = pick (pick_all ts) t (apply_tx t work)

-- `feeSum += t.Fee`, with no check.
unfoldable pub fee_total : ℕ → List Tx → ℕ
fee_total sum [] = sum
fee_total sum (t ∷ ts) = fee_total (add_u64 sum t.fee) ts

-- `now`, or one past the tip's time.
unfoldable pub candidate_time : ℤ → Entry → ℤ
candidate_time now tip =
    if leb_ℤ now tip.block.time then wrap_i64 (tip.block.time +ℤ pos 1) else now

-- `MaxTxsPerBlock - 1`, an int: below the least one it wraps to the greatest.
unfoldable pub below_limit : ℤ → ℤ
below_limit max = if leb_ℤ max (negsuc (2 ^ 63 - 1)) then pos (2 ^ 63 - 1) else max -ℤ pos 1

-- `if len(txs) > limit { txs = txs[:limit] }`; nothing where the bound of the slice is negative,
-- which panics.
unfoldable pub cut_to : ℤ → List Tx → Option (List Tx)
cut_to limit txs =
    if not (ltb_ℤ limit (pos (length txs)))
    then some txs
    else if ltb_ℤ limit (pos 0)
    then none
    else some (take (pos_part limit) txs)

-- The transactions of the mempool that a candidate takes; nothing where Go panics.
unfoldable pub candidate_txs : Node → Option (List Tx)
candidate_txs n =
    elim (pick_all
      (sort_stable pays_more (map (λ (p : Hash × Tx). p.1) (pooled n.mempool_tx n.mempool_order)))
      n.state) [ none ↦ none | some txs ↦ cut_to (below_limit n.params.max_txs_per_block) txs ]

-- What `BuildCandidate` does: it returns nil, it panics, or it returns a block.
pub data BuiltCandidate : Type 0 where
  no_tip candidate_panics : BuiltCandidate
  built : Block → BuiltCandidate

abbrev pub candidate_coinbase : Address → ℤ → ℕ → ℕ → Tx
candidate_coinbase miner now height amount = record {
  from = [];
  to = miner;
  amount = amount;
  fee = 0;
  nonce = height;
  time = now;
  pub_key = none;
  sig = none;
}

module _ ⦃c : Primitives⦄ where
  -- `AddTx` behind `ApplyTx`. `n.pending` points to `ps`, whatever is returned.
  unfoldable pub add_applied :
      Tx → Bytes → Outcome (Unit {0}) × State → Node → Result NodeError (Unit {0}) × Node
  add_applied t except_peer (panic, ps) n = (err died, crash n)
  add_applied t except_peer (failed e, ps) n = (err (tx_rejected e), record n { pending = some ps })
  add_applied t except_peer (done _, ps) n =
      let added = record n {
        seen_tx = mark_seen (tx_hash t) n.seen_tx;
        mempool_tx = insert (tx_hash t) t n.mempool_tx;
        mempool_order = n.mempool_order ++ (tx_hash t ∷ []);
        pending = some ps;
        pending_dirty = false;
      } in
      if leb max_mempool (length n.mempool_tx)
      then (err mempool_full, record n { pending = some ps })
      else (ok tt, if n.networked then emit (sent_tx t except_peer) added else added)

  -- `AddTx` behind `ValidateTx`.
  unfoldable pub add_validated :
      Tx → Bytes → Outcome (Unit {0}) × State → Node → Result NodeError (Unit {0}) × Node
  add_validated t except_peer (panic, ps) n = (err died, crash n)
  add_validated t except_peer (failed e, ps) n =
      (err (tx_rejected e), record n { pending = some ps })
  add_validated t except_peer (done _, ps) n = add_applied t except_peer (apply_tx t ps) n

  -- `AddTx`
  unfoldable pub add_tx : Tx → Bytes → Node → Result NodeError (Unit {0}) × Node
  add_tx t except_peer n =
      if contains (tx_hash t) n.seen_tx
      then (ok tt, n)
      else (let (ps, m) = pending_state n in add_validated t except_peer (validate_tx t ps) m)

  -- The block that `BuildCandidate` makes on top of `tip`, of a reward and transactions.
  unfoldable pub candidate_on : Address → ℤ → Entry → ℕ → List Tx → Node → Block
  candidate_on miner now tip reward txs n =
      let time = candidate_time now tip in
      let height = add_u64 tip.block.height 1 in
      let block_txs =
        candidate_coinbase miner time height (add_u64 reward (fee_total 0 txs)) ∷ txs in
      record {
        height = height;
        prev_hash = tip.hash;
        time = time;
        difficulty = next_difficulty n.params (some tip.block) (anchor_of tip n);
        miner = miner;
        extra_nonce = 0;
        merkle_root = merkle_root_of block_txs;
        nonce = 0;
        txs = block_txs;
      }

  -- `BuildCandidate`. It panics where `ApplyTx` does, where the limit on transactions is below one,
  -- and where the halving interval is zero.
  unfoldable pub build_candidate : Address → ℤ → Node → BuiltCandidate
  build_candidate miner now n = elim n.tip [
    | none ↦ no_tip
    | some tip ↦ elim (candidate_txs n) [
      | none ↦ candidate_panics
      | some txs ↦ elim (reward_at n.params (add_u64 tip.block.height 1)) [
        | none ↦ candidate_panics
        | some reward ↦ built (candidate_on miner now tip reward txs n)
      ]
    ]
  ]
