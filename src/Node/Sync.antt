-- ===== src/Node/Sync.antt =====
-- Synchronisation: block locators, the blocks that answer them, and the handlers of the messages.
pub mod Batch
use blu_gold.Base.{
  ℕ, zero, suc, ◌+◌, ◌*◌, ◌%◌, Bool, true, false, not, ◌&&◌, ◌||◌, Option, none, some, List, [],
  ◌∷◌, ◌++◌, bytes_eq, Bytes, map, take, length, ltb, leb, ◌==◌, if◌then◌else◌, u64_mod, add_u64,
  Result, ok, err,
}
use mathlib.Core.List.{foldl}
use blu_gold.Base.Int.{ℤ, pos, ltb_ℤ, leb_ℤ, pos_part}
use blu_gold.Base.Dict.{Dict, lookup, contains}
use blu_gold.Crypto.Interface.{Primitives}
use blu_gold.Chain.Tx.{Tx, Hash}
use blu_gold.Chain.Block.{Block, block_hash, genesis}
use blu_gold.Node.Data.{Entry, Node, NodeError, orphan, died, is_rejected}
use blu_gold.Node.Pool.{pooled}
use blu_gold.Node.Switch.{crash}
use blu_gold.Node.Insert.{insert_block}
use blu_gold.Node.Transactions.{add_tx}

abbrev pub sync_batch : ℕ
sync_batch = 500

abbrev pub sync_tx_budget : ℕ
sync_tx_budget = 5000

abbrev pub mempool_reply_budget : ℕ
mempool_reply_budget = 5000

-- The messages between nodes, decoded. An entry of a JSON list, or a JSON field, may be null.
pub data Message : Type 0 where
  get_blocks : List Hash → ℤ → Message
  blocks_msg : List (Option Block) → Message
  new_block : Option Block → Message
  new_tx : Option Tx → Message
  get_mempool : Message
  mempool_msg : List (Option Tx) → Message

-- The inner loop of `locatorLocked`: up to `steps` parents back, and not below the genesis block.
unfoldable pub back_to : ℕ → Dict Entry → Entry → Option Entry
back_to zero blocks e = some e
back_to (suc steps) blocks e = elim (e.block.height == 0) [
  | true ↦ some e
  | false ↦ elim (lookup e.block.prev_hash blocks) [
    | none ↦ none
    | some parent ↦ back_to steps blocks parent
  ]
]

-- The gap behind a hash, when `taken` hashes are in the list.
unfoldable pub next_step : ℕ → ℕ → ℕ
next_step taken step = if ltb 10 taken then step * 2 % u64_mod else step

-- The loop of `locatorLocked`. Every round goes down at least one height, so one more round than
-- the height of the entry is enough.
unfoldable pub locator_from : ℕ → ℕ → ℕ → Hash → Dict Entry → Entry → List Hash
locator_from zero taken step genesis_hash blocks e = genesis_hash ∷ []
locator_from (suc fuel) taken step genesis_hash blocks e = e.hash ∷ elim (e.block.height == 0) [
  | true ↦ []
  | false ↦ elim (back_to (next_step (suc taken) step) blocks e) [
    | none ↦ genesis_hash ∷ []
    | some a ↦ locator_from fuel (suc taken) (next_step (suc taken) step) genesis_hash blocks a
  ]
]

-- The hash of the active chain at a height, and its entry.
unfoldable pub active_entry : ℕ → Node → Option Entry
active_entry h n = elim (n.chain_heights h) [ none ↦ none | some hash ↦ lookup hash n.blocks ]

-- `n.chainHeights[e.block.Height] != h`
unfoldable pub is_active : Hash → ℕ → Node → Bool
is_active hash h n = elim (n.chain_heights h) [ none ↦ false | some g ↦ bytes_eq g hash ]

-- The height behind the newest entry of the locator that is on the active chain.
unfoldable pub locator_start : List Hash → Node → ℕ
locator_start [] n = 1
locator_start (h ∷ locator) n =
    let rest = locator_start locator n in
    elim (lookup h n.blocks) [
      | none ↦ rest
      | some e ↦ if is_active h e.block.height n then add_u64 e.block.height 1 else rest
    ]

-- The loop of `blocksAfterLocatorLocked`, for up to `count` more blocks, with the transactions so
-- far.
unfoldable pub batch_from : ℕ → ℕ → ℕ → ℕ → Node → List Block
batch_from zero txs h top n = []
batch_from (suc count) txs h top n = elim (leb h top) [
  | false ↦ []
  | true ↦ elim (active_entry h n) [
    | none ↦ []
    | some e ↦ e.block ∷ elim (leb sync_tx_budget (txs + length e.block.txs)) [
      | true ↦ []
      | false ↦ batch_from count (txs + length e.block.txs) (add_u64 h 1) top n
    ]
  ]
]

-- `blocksAfterLocatorLocked`
unfoldable pub blocks_after_locator : List Hash → ℕ → Node → List Block
blocks_after_locator locator count n = elim n.tip [
  | none ↦ []
  | some tip ↦ batch_from count 0 (locator_start locator n) tip.block.height n
]

-- The count of a request: at most `sync_batch`, which also stands for none.
unfoldable pub batch_count : ℤ → ℕ
batch_count count =
    if leb_ℤ count (pos 0) || ltb_ℤ (pos sync_batch) count then sync_batch else pos_part count

-- `sendGetBlocks`
unfoldable pub ask_blocks : List Hash → List Message
ask_blocks [] = []
ask_blocks (h ∷ locator) = get_blocks (h ∷ locator) (pos sync_batch) ∷ []

-- `onGetBlocks`
unfoldable pub on_get_blocks : List Hash → ℤ → Node → List Message
on_get_blocks locator count n =
    let out = blocks_after_locator locator (batch_count count) n in
    if length out == 0 then [] else blocks_msg (map some out) ∷ []

-- `onGetMempool`
unfoldable pub on_get_mempool : Node → List Message
on_get_mempool n =
    let txs =
      take mempool_reply_budget
        (map (λ (p : Hash × Tx). p.1) (pooled n.mempool_tx n.mempool_order)) in
    if length txs == 0 then [] else mempool_msg (map some txs) ∷ []

module _ ⦃c : Primitives⦄ where
  -- `locatorLocked`
  unfoldable pub locator_of : Option Entry → Node → List Hash
  locator_of none n = block_hash (genesis n.params) ∷ []
  locator_of (some e) n =
      locator_from (suc e.block.height) 0 1 (block_hash (genesis n.params)) n.blocks e

  -- `tipLocator`
  unfoldable pub tip_locator : Node → List Hash
  tip_locator n = locator_of n.tip n

  -- `onPeerConnect`: what the node sends first.
  unfoldable pub on_peer_connect : Node → List Message
  on_peer_connect n = ask_blocks (tip_locator n) ++ (get_mempool ∷ [])

  -- The end of `acceptRemoteBlock`.
  unfoldable pub remote_result : Result NodeError (Unit {0}) × Node → Bool × List Message × Node
  remote_result (ok _, n) = (true, [], n)
  remote_result (err orphan, n) = (false, ask_blocks (tip_locator n), n)
  remote_result (err _, n) = (false, [], n)

  -- `acceptRemoteBlock`, for a peer that is dialled at `peer`: whether the block was new, what is
  -- sent to the peer, and the node.
  unfoldable pub accept_remote_block : ℤ → Bytes → Bool → Block → Node → Bool × List Message × Node
  accept_remote_block now peer announce b n =
      if contains (block_hash b) n.blocks || is_rejected (block_hash b) n
      then (false, [], n)
      else remote_result (insert_block now false announce peer b n)

  -- The loop of `onBlocks`: the last block that was new, what is sent, and the node. A null entry
  -- is a nil pointer, which `acceptRemoteBlock` reads: that is a panic.
  unfoldable pub accept_all :
      ℤ → Bytes → List (Option Block) → Option Hash → Node → Option Hash × List Message × Node
  accept_all now peer [] deepest n = (deepest, [], n)
  accept_all now peer (none ∷ bs) deepest n = (none, [], crash n)
  accept_all now peer (some b ∷ bs) deepest n =
      let (fresh, sent, m) = accept_remote_block now peer false b n in
      let (last, more, end) =
        accept_all now peer bs (if fresh then some (block_hash b) else deepest) m in
      (last, sent ++ more, end)

  -- The locator behind a batch: from the entry of the last new block, or from the tip.
  unfoldable pub next_locator : Hash → Node → List Hash
  next_locator deepest n = elim (lookup deepest n.blocks) [
    | none ↦ locator_of n.tip n
    | some e ↦ locator_of (some e) n
  ]

  -- `onBlocks`
  unfoldable pub on_blocks : ℤ → Bytes → List (Option Block) → Node → List Message × Node
  on_blocks now peer bs n =
      let (deepest, sent, m) = accept_all now peer bs none n in
      (elim deepest [ none ↦ sent | some h ↦ sent ++ ask_blocks (next_locator h m) ], m)

  -- `onNewBlock`
  unfoldable pub on_new_block : ℤ → Bytes → Option Block → Node → List Message × Node
  on_new_block now peer none n = ([], n)
  on_new_block now peer (some b) n =
      let (fresh, sent, m) = accept_remote_block now peer true b n in (sent, m)

  -- `onNewTx`, and one entry of `onMempool`. An error is only logged.
  unfoldable pub on_new_tx : Bytes → Option Tx → Node → Node
  on_new_tx peer none n = n
  on_new_tx peer (some t) n = (add_tx t peer n).1

  -- `onMempool`
  unfoldable pub on_mempool : Bytes → List (Option Tx) → Node → Node
  on_mempool peer txs n = foldl (λ m t. on_new_tx peer t m) n txs

  -- `onMessage`: what is sent back to the peer, and the node.
  unfoldable pub on_message : ℤ → Bytes → Message → Node → List Message × Node
  on_message now peer (get_blocks locator count) n = (on_get_blocks locator count n, n)
  on_message now peer (blocks_msg bs) n = on_blocks now peer bs n
  on_message now peer (new_block b) n = on_new_block now peer b n
  on_message now peer (new_tx t) n = ([], on_new_tx peer t n)
  on_message now peer get_mempool n = (on_get_mempool n, n)
  on_message now peer (mempool_msg txs) n = ([], on_mempool peer txs n)
