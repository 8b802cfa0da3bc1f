-- ===== src/Node/Run.antt =====
-- The calls that change a node, one at a time (each holds the node's lock), from the end of `New`
-- on.
use blu_gold.Base.{ℕ, Bool, List, Option, Bytes, ok, ◌≡◌}
use blu_gold.Base.Int.{ℤ}
use blu_gold.Crypto.Interface.{Primitives}
use blu_gold.Crypto.{Address}
use blu_gold.Chain.Params.{Params}
use blu_gold.Chain.Tx.{Tx}
use blu_gold.Chain.Block.{Block}
use blu_gold.Node.Data.{Node}
use blu_gold.Node.Transactions.{pending_state, add_tx}
use blu_gold.Node.Wallet.{Wallet, send, submit_solution}
use blu_gold.Node.Sync.{Message, on_message}
use blu_gold.Node.Boot.{boot}

module _ ⦃c : Primitives⦄ where
  pub data Step (n : Node) : Node → Type 0 where
    message : (now : ℤ) (peer : Bytes) (m : Message) → Step n (on_message now peer m n).1
    added : (t : Tx) (except_peer : Bytes) → Step n (add_tx t except_peer n).1
    paid :
        (w : Option Wallet) (to : Address) (amount fee : ℕ) (now : ℤ)
        → Step n (send w to amount fee now n).1
    mined : (now : ℤ) (b : Block) → Step n (submit_solution now b n).1
    asked : Step n (pending_state n).1

  -- What a node that `New` has returned can become.
  pub data Reached (p : Params) (blocks : List Block) : Node → Type 0 where
    booted :
        (peer_sync : Bool) (now : ℤ) (written : Bool) (n : Node)
        → boot p peer_sync now written blocks ≡ (ok tt, n)
        → Reached p blocks n
    step : (n m : Node) → Reached p blocks n → Step n m → Reached p blocks m
