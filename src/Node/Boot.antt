-- ===== src/Node/Boot.antt =====
-- `New`: the empty node, the blocks that are stored, and the first choice of a tip.
pub mod Fresh
use blu_gold.Base.{Bool, true, false, none, List, [], ◌∷◌, Result, ok, err, if◌then◌else◌}
use blu_gold.Base.Int.{ℤ}
use blu_gold.Crypto.Interface.{Primitives}
use blu_gold.Chain.Params.{Params}
use blu_gold.Chain.Block.{Block, genesis}
use blu_gold.Node.Data.{Node, NodeError, stored, emit}
use blu_gold.Node.Switch.{select_tip}
use blu_gold.Node.Insert.{insert_block}

pub data BootError : Type 0 where
  genesis_refused block_refused : NodeError → BootError
  not_written : BootError

-- The composite literal, with `booting` set. There is no switch yet.
unfoldable pub empty_node : Params → Node
empty_node p = record {
  params = p;
  networked = false;
  blocks = [];
  tip = none;
  state = [];
  checkpoints = [];
  rejected = [];
  orphans = [];
  chain_heights = λ h. none;
  mempool_tx = [];
  mempool_order = [];
  pending = none;
  pending_dirty = false;
  seen_tx = [];
  booting = true;
  log = [];
  crashed = false;
}

-- `AppendBlock` of the genesis block; `written` says whether the write succeeds.
unfoldable pub store_genesis :
    Bool → Block → Result NodeError (Unit {0}) × Node → Result BootError (Unit {0}) × Node
store_genesis written b (err e, n) = (err (genesis_refused e), n)
store_genesis written b (ok _, n) =
    if written then (ok tt, emit (stored b) n) else (err not_written, n)

-- One stored block, with the rest of the loop.
unfoldable pub load_next :
    (Node → Result BootError (Unit {0}) × Node)
    → Result NodeError (Unit {0}) × Node
    → Result BootError (Unit {0}) × Node
load_next rest (err e, n) = (err (block_refused e), n)
load_next rest (ok _, n) = rest n

module _ ⦃c : Primitives⦄ where
  unfoldable pub load_all : ℤ → List Block → Node → Result BootError (Unit {0}) × Node
  load_all now [] n = (ok tt, n)
  load_all now (b ∷ bs) n = load_next (load_all now bs) (insert_block now true false [] b n)

  -- The blocks of `LoadBlocks`, or a new genesis block where there are none.
  unfoldable pub load_store : ℤ → Bool → List Block → Node → Result BootError (Unit {0}) × Node
  load_store now written [] n =
      store_genesis written (genesis n.params)
        (insert_block now false false [] (genesis n.params) n)
  load_store now written (b ∷ bs) n = load_all now (b ∷ bs) n

  -- The end of `New`: the tip is chosen, and with `PeerSync` the switch is there.
  unfoldable pub finish_boot :
      Bool → Result BootError (Unit {0}) × Node → Result BootError (Unit {0}) × Node
  finish_boot peer_sync (err e, n) = (err e, n)
  finish_boot peer_sync (ok _, n) =
      (ok tt, record (select_tip (record n { booting = false })) { networked = peer_sync })

  -- `New` behind `LoadBlocks`, up to the start of the switch.
  unfoldable pub boot : Params → Bool → ℤ → Bool → List Block → Result BootError (Unit {0}) × Node
  boot p peer_sync now written blocks =
      finish_boot peer_sync (load_store now written blocks (empty_node p))
