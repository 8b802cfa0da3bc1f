-- ===== src/Node/Pool.antt =====
-- The mempool against the state of the active chain.
pub mod Coherent
use blu_gold.Base.{
  ℕ, Bool, true, false, not, ◌&&◌, ◌||◌, Option, none, some, List, [], ◌∷◌, ◌++◌, map, length, ltb,
  bytes_eq, if◌then◌else◌, Result, ok, err, is_ok, leb,
}
use mathlib.Core.List.{foldl}
use blu_gold.Base.Int.{ℤ, ltb_ℤ}
use blu_gold.Base.Dict.{Dict, lookup, insert, erase, contains}
use blu_gold.Crypto.Interface.{Primitives}
use blu_gold.Chain.Tx.{Tx, Hash, tx_hash, is_coinbase, verify}
use blu_gold.Chain.Block.{Block}
use blu_gold.State.Monad.{State, Outcome, done, failed, panic}
use blu_gold.State.{apply_tx}
use blu_gold.Node.Data.{Entry, Node}
use blu_gold.Node.Tree.{path_to_genesis}

-- The variables of the loops that refill the mempool.
pub record Kept : Type 0 where
  pub work : State
  pub keep_tx : Dict Tx
  pub keep_order : List Hash
  pub fault : Bool

-- What follows `work.ApplyTx(t)`: an error is skipped.
unfoldable pub keep : Hash → Tx → Kept → Outcome (Unit {0}) × State → Kept
keep h t k (done _, work) = record {
  work = work;
  keep_tx = insert h t k.keep_tx;
  keep_order = k.keep_order ++ (h ∷ []);
  fault = k.fault;
}
keep h t k (failed e, work) = record k { work = work }
keep h t k (panic, work) = record k { work = work; fault = true }

unfoldable pub keep_applied : Hash → Tx → Kept → Kept
keep_applied h t k = keep h t k (apply_tx t k.work)

abbrev pub none_kept : State → Kept
none_kept s = record { work = s; keep_tx = []; keep_order = []; fault = false }

-- The transactions of the mempool in its order; a hash that is no longer in the map is passed over.
unfoldable pub pooled : Dict Tx → List Hash → List (Hash × Tx)
pooled txs [] = []
pooled txs (h ∷ order) =
    let rest = pooled txs order in elim (lookup h txs) [ none ↦ rest | some t ↦ (h, t) ∷ rest ]

unfoldable pub keep_all : List (Hash × Tx) → Kept → Kept
keep_all [] k = k
keep_all ((h, t) ∷ rest) k = keep_all rest (keep_applied h t k)

-- The end of both loops: the node takes what was kept.
abbrev pub refill : Node → Kept → Node
refill n k = record n {
  mempool_tx = k.keep_tx;
  mempool_order = k.keep_order;
  pending = some k.work;
  pending_dirty = false;
  crashed = n.crashed || k.fault;
}

-- `revalidateMempoolLocked`
unfoldable pub revalidate_mempool : Node → Node
revalidate_mempool n = refill n (keep_all (pooled n.mempool_tx n.mempool_order) (none_kept n.state))

module _ ⦃c : Primitives⦄ where
  -- The loop of `dropConfirmedLocked`: what stays in the map, and whether something was dropped.
  unfoldable pub drop_confirmed_txs : List Tx → Dict Tx × Bool → Dict Tx × Bool
  drop_confirmed_txs [] kept = kept
  drop_confirmed_txs (t ∷ ts) (txs, dropped) =
      drop_confirmed_txs ts
        (if contains (tx_hash t) txs then (erase (tx_hash t) txs, true) else (txs, dropped))

  -- `dropConfirmedLocked`
  unfoldable pub drop_confirmed : Entry → Node → Node
  drop_confirmed new_tip n =
      let (txs, dropped) = drop_confirmed_txs new_tip.block.txs (n.mempool_tx, false) in
      let m = record n { mempool_tx = txs } in
      if dropped || ltb 0 (length txs)
      then revalidate_mempool m
      else record m { pending_dirty = true }

  -- `add` in `rebuildMempoolLocked`: no coinbase, and no transaction twice.
  unfoldable pub add_candidate : Tx → List (Hash × Tx) → List (Hash × Tx)
  add_candidate t cands =
      if contains (tx_hash t) cands || is_coinbase t then cands else cands ++ ((tx_hash t, t) ∷ [])

  unfoldable pub confirmed_in : Hash → List Tx → Bool
  confirmed_in h [] = false
  confirmed_in h (t ∷ ts) = bytes_eq (tx_hash t) h || confirmed_in h ts

  -- `confirmSet`: the transactions of the active chain.
  unfoldable pub confirmed_on : Hash → List Entry → Bool
  confirmed_on h [] = false
  confirmed_on h (e ∷ path) = confirmed_in h e.block.txs || confirmed_on h path

  -- The candidates that are neither confirmed nor invalid by themselves.
  unfoldable pub eligible : List Entry → List (Hash × Tx) → List (Hash × Tx)
  eligible path [] = []
  eligible path ((h, t) ∷ rest) =
      let more = eligible path rest in
      if confirmed_on h path || not (is_ok (verify t)) then more else (h, t) ∷ more

-- `sort.SliceStable`: an item goes behind all that are not greater.
module _ {A : Type 0} (less : A → A → Bool) where
  unfoldable pub insert_stable : A → List A → List A
  insert_stable x [] = x ∷ []
  insert_stable x (y ∷ ys) =
      let rest = insert_stable x ys in if less x y then x ∷ y ∷ ys else y ∷ rest

  unfoldable pub sort_from : List A → List A → List A
  sort_from sorted [] = sorted
  sort_from sorted (x ∷ xs) = sort_from (insert_stable x sorted) xs

  unfoldable pub sort_stable : List A → List A
  sort_stable xs = sort_from [] xs

unfoldable pub earlier : Hash × Tx → Hash × Tx → Bool
earlier (_, t) (_, u) = ltb_ℤ t.time u.time

module _ ⦃c : Primitives⦄ where
  -- `rebuildMempoolLocked`, with the tip that the node has by then.
  unfoldable pub rebuild_mempool : Entry → List Tx → Node → Node
  rebuild_mempool tip rolled_back n =
      let txs = map (λ (p : Hash × Tx). p.1) (pooled n.mempool_tx n.mempool_order) in
      let cands = foldl (λ cs t. add_candidate t cs) [] (txs ++ rolled_back) in
      let order = sort_stable earlier cands in
      refill n (keep_all (eligible (path_to_genesis tip n) order) (none_kept n.state))
