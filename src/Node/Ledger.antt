-- ===== src/Node/Ledger.antt =====
-- What the node promises: the state of a chain is what its blocks make of no accounts.
pub mod Paths
pub mod Climb
pub mod Replay
pub mod Pruning
pub mod Follows
pub mod Switching
pub mod Rebasing
pub mod Moving
pub mod Selecting
pub mod Placing
pub mod Inserting
pub mod Booting
pub mod Running
pub mod Supply
pub mod Index
pub mod Listing
pub mod Answering
use blu_gold.Base.{ℕ, Bool, Option, none, some, List, [], ◌∷◌, ◌==◌, if◌then◌else◌}
use blu_gold.Crypto.Interface.{Primitives}
use blu_gold.Chain.Params.{Params}
use blu_gold.Chain.Tx.{Hash}
use blu_gold.State.Monad.{State, Outcome, done, failed, panic}
use blu_gold.State.{apply_block}
use blu_gold.Node.Data.{Entry}

unfoldable pub finished : Outcome (Unit {0}) × State → Option State
finished (done _, s) = some s
finished (failed e, s) = none
finished (panic, s) = none

-- The hash of a path, newest first, at a height.
unfoldable pub index_of : List Entry → ℕ → Option Hash
index_of [] h = none
index_of (e ∷ below) h = if h == e.block.height then some e.hash else index_of below h

module _ ⦃c : Primitives⦄ where
  unfoldable pub entry_state : Params → Entry → State → Option State
  entry_state p e s = if e.block.height == 0 then some s else finished (apply_block e.block p s)

  -- The state behind a path, newest first; nothing where a block does not apply.
  unfoldable pub chain_state : Params → List Entry → Option State
  chain_state p [] = some []
  chain_state p (e ∷ below) = elim (chain_state p below) [
    | none ↦ none
    | some s ↦ entry_state p e s
  ]
