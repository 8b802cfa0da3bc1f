-- ===== src/Node/Network.antt =====
-- The switch of a node in internal/node/node.go: its start at the end of New, the rounds of
-- syncLoop, and Stop.
use blu_gold.Base.{
  ℕ, Bool, true, false, not, ◌||◌, Option, none, some, List, ◌++◌, Bytes, if◌then◌else◌, Result, ok,
  err,
}
use blu_gold.Base.Int.{ℤ, pos, ltb_ℤ}
use blu_gold.Crypto.Interface.{Primitives}
use blu_gold.Node.Data.{Node}
use blu_gold.Chain.Tx.{Hash}
use blu_gold.Chain.Block.{zero_hash}
use blu_gold.Node.Sync.{Message, ask_blocks, tip_locator}
use blu_gold.P2p.{Switch, new_switch, start, stop}

-- The part of `Config` that the switch is made of.
pub record NetworkConfig : Type 0 where
  pub listen : Bytes
  pub advertise : Bytes
  pub seeds : List Bytes
  pub max_peers : ℤ

-- The seeds of the switch: those of `Config`, and those of `LoadPeers` where it succeeds.
unfoldable pub all_seeds : {E : Type 0} → List Bytes → Result E (List Bytes) → List Bytes
all_seeds seeds (ok saved) = seeds ++ saved
all_seeds seeds (err e) = seeds

-- The switch of `New`, for its nonce and for the address that the listener gets; nothing where
-- `Start` fails.
unfoldable pub start_switch :
    {E : Type 0} → NetworkConfig → Result E (List Bytes) → ℕ → Option Bytes → Option Switch
start_switch cfg saved nonce none = none
start_switch cfg saved nonce (some bound) =
    let s = new_switch cfg.listen cfg.advertise nonce (all_seeds cfg.seeds saved) in
    some (
      start bound
        (if ltb_ℤ (pos 0) cfg.max_peers then record s { max_peers = cfg.max_peers } else s))

-- `TipHash`
unfoldable pub tip_hash : Node → Hash
tip_hash n = elim n.tip [ none ↦ zero_hash | some tip ↦ tip.hash ]

-- `Stop`, for the switch and whether the node was stopped before: the switch behind it, and whether
-- the store is closed now.
unfoldable pub stop_node : Bool → Option Switch → Option Switch × Bool
stop_node true s = (s, false)
stop_node false none = (none, true)
stop_node false (some s) = (some (stop s), true)

module _ ⦃c : Primitives⦄ where
  -- One round of `syncLoop`: nothing where the loop ends, or else what is broadcast.
  unfoldable pub sync_round : Bool → Node → Option (List Message)
  sync_round stopped n =
      if not n.networked || stopped then none else some (ask_blocks (tip_locator n))
