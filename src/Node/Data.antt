-- ===== src/Node/Data.antt =====
-- The data of a node. A Go map is a dictionary (or a function, for `chainHeights`, which is never
-- ranged over); what a call does outside the node's memory is an event in `log`, oldest first.
use blu_gold.Base.{
  ℕ, Bool, false, Option, none, some, List, [], ◌∷◌, ◌++◌, Bytes, ◌==◌, if◌then◌else◌,
}
use blu_gold.Base.Dict.{Dict, lookup}
use blu_gold.Chain.Params.{Params}
use blu_gold.Chain.Tx.{Tx, Hash}
use blu_gold.Chain.Block.{Block, BlockError}
use blu_gold.State.Monad.{State, StateError}

abbrev pub checkpoint_interval : ℕ
checkpoint_interval = 100

abbrev pub max_orphans : ℕ
max_orphans = 100

abbrev pub max_mempool : ℕ
max_mempool = 10_000

abbrev pub seen_reset_at : ℕ
seen_reset_at = 50_000

-- `blockEntry`
pub record Entry : Type 0 where
  pub block : Block
  pub hash : Hash
  pub work : ℕ

pub data Event : Type 0 where
  -- `store.AppendBlock`
  stored : Block → Event
  -- `Broadcast` of a new block or transaction, to all peers but one
  sent_block : Block → Bytes → Event
  sent_tx : Tx → Bytes → Event
  -- `publishLocked`
  published : Block → Event

pub data NodeError : Type 0 where
  orphan previously_rejected unknown_genesis wrong_difficulty no_common_ancestor : NodeError
  mempool_full out_of_fuel : NodeError
  invalid_block invalid_pow : BlockError → NodeError
  state_invalid tx_rejected : StateError → NodeError
  -- a panic inside the call, which ends the process
  died : NodeError

-- `crashed` is set where the Go code panics, which ends the process.
pub record Node : Type 0 where
  pub params : Params
  -- `n.sw != nil`
  pub networked : Bool
  pub blocks : Dict Entry
  pub tip : Option Entry
  pub state : State
  pub checkpoints : Dict State
  pub rejected : Dict Bool
  pub orphans : Dict (List Block)
  pub chain_heights : ℕ → Option Hash
  pub mempool_tx : Dict Tx
  pub mempool_order : List Hash
  pub pending : Option State
  pub pending_dirty : Bool
  pub seen_tx : Dict (Unit {0})
  pub booting : Bool
  pub log : List Event
  pub crashed : Bool

-- `n.rejected[h]`
abbrev pub is_rejected : Hash → Node → Bool
is_rejected h n = elim (lookup h n.rejected) [ none ↦ false | some b ↦ b ]

abbrev pub emit : Event → Node → Node
emit e n = record n { log = n.log ++ (e ∷ []) }

-- `m[h] = v` on a map of heights.
abbrev pub set_height : ℕ → Hash → (ℕ → Option Hash) → ℕ → Option Hash
set_height h v m k = if k == h then some v else m k
