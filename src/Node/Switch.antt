-- ===== src/Node/Switch.antt =====
-- The choice of the tip, and the switch of the active chain.
pub mod Best
pub mod Orphans
pub mod Money
use blu_gold.Base.{
  ℕ, suc, ◌+◌, ◌%◌, Bool, true, false, not, ◌&&◌, ◌||◌, Option, none, some, List, [], ◌∷◌, ◌++◌,
  bytes_eq, bytes_lt, ltb, ◌==◌, if◌then◌else◌, Result, ok, err,
}
use mathlib.Core.List.{reverse}
use blu_gold.Base.Dict.{Dict, lookup, insert, contains}
use blu_gold.Crypto.Interface.{Primitives}
use blu_gold.Chain.Tx.{Tx, Hash}
use blu_gold.Chain.Block.{Block}
use blu_gold.State.Monad.{State, StateError, Outcome, done, failed, panic}
use blu_gold.State.{apply_block}
use blu_gold.Node.Data.{
  Entry, Node, NodeError, no_common_ancestor, state_invalid, died, published, checkpoint_interval,
  is_rejected, emit, set_height,
}
use blu_gold.Node.Tree.{path_to_genesis, tail_after, reject_subtree}
use blu_gold.Node.Pool.{drop_confirmed, rebuild_mempool}

-- `e` is the better tip: more work, or as much work and the smaller hash. (Hex digits keep the
-- order of bytes.)
unfoldable pub beats : Entry → Entry → Bool
beats e best = ltb best.work e.work || e.work == best.work && bytes_lt e.hash best.hash

-- The loop of `selectTipLocked`.
unfoldable pub best_from : Option Entry → Dict Entry → Node → Option Entry
best_from best [] n = best
best_from best ((_, e) ∷ blocks) n =
    best_from
      (if is_rejected e.hash n
        then best
        else elim best [ none ↦ some e | some b ↦ if beats e b then some e else some b ])
      blocks n

-- `publishLocked`
unfoldable pub publish : Block → Node → Node
publish b n = if n.booting then n else emit (published b) n

-- `if height%checkpointInterval == 0 { n.checkpoints[hash] = fresh.Clone() }`
unfoldable pub checkpoint : Entry → State → Node → Node
checkpoint e fresh n =
    if e.block.height % checkpoint_interval == 0
    then record n { checkpoints = insert e.hash fresh n.checkpoints }
    else n

-- The hashes of a path are a set.
unfoldable pub on_path : Hash → List Entry → Bool
on_path h [] = false
on_path h (e ∷ path) = bytes_eq e.hash h || on_path h path

unfoldable pub first_common : List Entry → List Entry → Option Entry
first_common [] old = none
first_common (e ∷ path) old =
    let rest = first_common path old in if on_path e.hash old then some e else rest

-- The last entry of the path that has a checkpoint.
unfoldable pub last_checkpoint : Option Entry → List Entry → Node → Option Entry
last_checkpoint best [] n = best
last_checkpoint best (e ∷ path) n =
    last_checkpoint (if contains e.hash n.checkpoints then some e else best) path n

-- `baseStateLocked`
unfoldable pub base_state : List Entry → Node → State
base_state new_path n = elim (last_checkpoint none new_path n) [
  | none ↦ []
  | some best ↦ elim (lookup best.hash n.checkpoints) [ none ↦ [] | some s ↦ s ]
]

-- `startHeight` in `switchChainLocked`
unfoldable pub start_height : List Entry → Node → ℕ
start_height new_path n = elim (last_checkpoint none new_path n) [
  | none ↦ 0
  | some e ↦ e.block.height + 1
]

unfoldable pub path_heights : List Entry → (ℕ → Option Hash) → ℕ → Option Hash
path_heights [] m = m
path_heights (e ∷ path) m = path_heights path (set_height e.block.height e.hash m)

unfoldable pub keep_on_path : List Entry → Dict State → Dict State
keep_on_path path [] = []
keep_on_path path ((h, s) ∷ checkpoints) =
    let rest = keep_on_path path checkpoints in if on_path h path then (h, s) ∷ rest else rest

-- The transactions of the old chain above the fork.
unfoldable pub rolled_back : ℕ → List Entry → List Tx
rolled_back fork_height [] = []
rolled_back fork_height (e ∷ old_path) =
    let rest = rolled_back fork_height old_path in
    if ltb fork_height e.block.height then e.block.txs ++ rest else rest

abbrev pub crash : Node → Node
crash n = record n { crashed = true }

module _ ⦃c : Primitives⦄ where
  -- One block of `replayLocked`: what follows `fresh.ApplyBlock`, with the rest of the loop.
  unfoldable pub replay_step :
      (State → Node → Result NodeError State × Node)
      → Entry
      → Outcome (Unit {0}) × State
      → Node
      → Result NodeError State × Node
  replay_step rest e (done _, fresh) n = rest fresh (checkpoint e fresh n)
  replay_step rest e (failed x, fresh) n = (err (state_invalid x), reject_subtree e n)
  replay_step rest e (panic, fresh) n = (err died, crash n)

  -- `replayLocked`
  unfoldable pub replay : List Entry → State → Node → Result NodeError State × Node
  replay [] fresh n = (ok fresh, n)
  replay (e ∷ path) fresh n =
      let skip = replay path fresh n in
      if e.block.height == 0
      then skip
      else replay_step (replay path) e (apply_block e.block n.params fresh) n

  -- `commitChainLocked`; the path ends with the new tip.
  unfoldable pub commit_chain : Entry → State → List Entry → List Tx → Node → Node
  commit_chain new_tip fresh new_path txs n = rebuild_mempool new_tip txs (record n {
    chain_heights = path_heights new_path (λ h. none);
    checkpoints = keep_on_path new_path n.checkpoints;
    state = fresh;
    tip = some new_tip;
    pending_dirty = true;
  })

  -- The end of `switchChainLocked` where there is no tip yet.
  unfoldable pub first_chain :
      Entry → List Entry → Result NodeError State × Node → Result NodeError (Unit {0}) × Node
  first_chain new_tip new_path (ok fresh, n) = (ok tt, commit_chain new_tip fresh new_path [] n)
  first_chain new_tip new_path (err e, n) = (err e, n)

  -- Where the new tip is a child of the tip: what follows `fresh.ApplyBlock`.
  unfoldable pub extend_chain :
      Entry → Outcome (Unit {0}) × State → Node → Result NodeError (Unit {0}) × Node
  extend_chain new_tip (done _, fresh) n =
      let m = checkpoint new_tip fresh n in
      (
        ok tt,
        publish new_tip.block (
            drop_confirmed new_tip (record m {
              chain_heights = set_height new_tip.block.height new_tip.hash m.chain_heights;
              state = fresh;
              tip = some new_tip;
              pending_dirty = true;
            })),
      )
  extend_chain new_tip (failed x, fresh) n = (err (state_invalid x), reject_subtree new_tip n)
  extend_chain new_tip (panic, fresh) n = (err died, crash n)

  -- The end of a reorganisation.
  unfoldable pub reorganised :
      Entry
      → List Entry
      → List Tx
      → Result NodeError State × Node
      → Result NodeError (Unit {0}) × Node
  reorganised new_tip new_path txs (ok fresh, n) =
      (ok tt, publish new_tip.block (commit_chain new_tip fresh new_path txs n))
  reorganised new_tip new_path txs (err e, n) = (err e, n)

  unfoldable pub reorganise : Entry → Entry → Node → Result NodeError (Unit {0}) × Node
  reorganise tip new_tip n =
      let new_path = reverse (path_to_genesis new_tip n) in
      let old_path = path_to_genesis tip n in
      elim (first_common new_path old_path) [
        | none ↦ (err no_common_ancestor, n)
        | some fork ↦
            reorganised new_tip new_path (rolled_back fork.block.height old_path)
              (replay (tail_after (start_height new_path n) new_path) (base_state new_path n) n)
      ]

  -- `switchChainLocked`
  unfoldable pub switch_chain : Entry → Node → Result NodeError (Unit {0}) × Node
  switch_chain new_tip n = elim n.tip [
    | none ↦
        let new_path = reverse (path_to_genesis new_tip n) in
        first_chain new_tip new_path (replay new_path [] n)
    | some tip ↦
        if bytes_eq new_tip.block.prev_hash tip.hash
        then extend_chain new_tip (apply_block new_tip.block n.params n.state) n
        else reorganise tip new_tip n
  ]

  -- `selectTipLocked`. Entries are compared by hash: the tree holds one for each. An error of the
  -- switch is only logged.
  unfoldable pub select_tip : Node → Node
  select_tip n = elim (best_from none n.blocks n) [
    | none ↦ n
    | some best ↦
        let switched = (switch_chain best n).1 in
        elim n.tip [
          | none ↦ switched
          | some tip ↦ if bytes_eq tip.hash best.hash then n else switched
        ]
  ]
