-- ===== src/Node/Insert.antt =====
-- `insertBlockLocked`: the checks of a block, its place in the tree, and the orphans that it frees.
pub mod Fuel
use blu_gold.Base.{
  ℕ, zero, suc, ◌+◌, Bool, true, false, not, ◌&&◌, ◌||◌, Option, none, some, List, [], ◌∷◌, ◌++◌,
  bytes_eq, Bytes, length, ltb, leb, ◌==◌, if◌then◌else◌, Result, ok, err,
}
use mathlib.Core.List.{foldl}
use blu_gold.Base.Int.{ℤ}
use blu_gold.Base.Dict.{Dict, lookup, insert, erase, contains}
use blu_gold.Crypto.Interface.{Primitives}
use blu_gold.Chain.Tx.{Hash}
use blu_gold.Chain.Block.{Block, BlockError, block_hash, genesis, validate_basic, validate_pow}
use blu_gold.Chain.Difficulty.{next_difficulty}
use blu_gold.Node.Data.{
  Entry, Node, NodeError, orphan, previously_rejected, unknown_genesis, wrong_difficulty,
  invalid_block, invalid_pow, out_of_fuel, stored, sent_block, max_orphans, is_rejected, emit,
  set_height,
}
use blu_gold.Node.Tree.{anchor_of}
use blu_gold.Node.Switch.{select_tip}

-- All orphans that wait, for any parent.
unfoldable pub orphan_count : Dict (List Block) → ℕ
orphan_count [] = 0
orphan_count ((_, l) ∷ orphans) = length l + orphan_count orphans

-- `n.orphans[h]`
abbrev pub waiting : Hash → Dict (List Block) → List Block
waiting h orphans = elim (lookup h orphans) [ none ↦ [] | some l ↦ l ]

module _ ⦃c : Primitives⦄ where
  unfoldable pub holds_block : Hash → List Block → Bool
  holds_block h [] = false
  holds_block h (b ∷ bs) = bytes_eq (block_hash b) h || holds_block h bs

  unfoldable pub holds_orphan : Hash → Dict (List Block) → Bool
  holds_orphan h [] = false
  holds_orphan h ((_, l) ∷ orphans) = holds_block h l || holds_orphan h orphans

  -- `addOrphanLocked`
  unfoldable pub add_orphan : Block → Node → Node
  add_orphan b n =
      if holds_orphan (block_hash b) n.orphans || leb max_orphans (orphan_count n.orphans)
      then n
      else record n {
        orphans = insert b.prev_hash (waiting b.prev_hash n.orphans ++ (b ∷ [])) n.orphans;
      }

  -- The checks below a parent that is in the tree.
  unfoldable pub check_block : ℤ → Entry → Block → Node → Result NodeError (Unit {0})
  check_block now parent b n = elim (validate_basic n.params (some parent.block) now b) [
    | err e ↦ err (invalid_block e)
    | ok _ ↦
        if not (b.difficulty == next_difficulty n.params (some parent.block) (anchor_of parent n))
        then err wrong_difficulty
        else elim (validate_pow b) [ err e ↦ err (invalid_pow e) | ok _ ↦ ok tt ]
  ]

  abbrev pub entry_below : Entry → Block → Entry
  entry_below parent b = record {
    block = b;
    hash = block_hash b;
    work = parent.work + b.difficulty;
  }

  -- The new entry in the tree, and on disk unless it comes from there. (A failed write is only
  -- logged.)
  unfoldable pub place : Bool → Entry → Block → Node → Node
  place from_disk parent b n =
      let m = record n { blocks = insert (block_hash b) (entry_below parent b) n.blocks } in
      if from_disk then m else emit (stored b) m

  -- What follows `promoteOrphansLocked`.
  unfoldable pub after_promotion : Bool → Bytes → Block → Node → Node
  after_promotion announce except_peer b n =
      let m =
        if announce && not n.booting && n.networked then emit (sent_block b except_peer) n else n in
      if n.booting then m else select_tip m

  -- A height of zero: only the genesis block of these parameters.
  unfoldable pub insert_genesis : Block → Node → Result NodeError (Unit {0}) × Node
  insert_genesis b n =
      if bytes_eq (block_hash b) (block_hash (genesis n.params))
      then (
        ok tt,
        record n {
          blocks =
              insert (block_hash b) (record { block = b; hash = block_hash b; work = 0 }) n.blocks;
          chain_heights = set_height 0 (block_hash b) n.chain_heights;
        },
      )
      else (err unknown_genesis, n)

  -- `promoteOrphansLocked`, with the call that inserts one orphan. Its errors are only logged.
  unfoldable pub promote_orphans :
      (Block → Node → Result NodeError (Unit {0}) × Node) → Hash → Node → Node
  promote_orphans again parent n =
      foldl (λ m b. (again b m).1) (record n { orphans = erase parent n.orphans })
        (waiting parent n.orphans)

  -- Behind the checks: the block is placed, its orphans follow, and the tip is chosen.
  unfoldable pub accept_block :
      (Block → Node → Result NodeError (Unit {0}) × Node)
      → Bool
      → Bool
      → Bytes
      → Entry
      → Block
      → Node
      → Node
  accept_block again from_disk announce except_peer parent b n =
      after_promotion announce except_peer b
        (promote_orphans again (block_hash b) (place from_disk parent b n))

  -- What follows the checks below a parent.
  unfoldable pub insert_checked :
      (Block → Node → Result NodeError (Unit {0}) × Node)
      → Bool
      → Bool
      → Bytes
      → Block
      → Node
      → Entry
      → Result NodeError (Unit {0})
      → Result NodeError (Unit {0}) × Node
  insert_checked again from_disk announce except_peer b n parent (err e) = (err e, n)
  insert_checked again from_disk announce except_peer b n parent (ok _) =
      (ok tt, accept_block again from_disk announce except_peer parent b n)

  -- What follows `n.blocks[b.PrevHash]`.
  unfoldable pub insert_below :
      (Block → Node → Result NodeError (Unit {0}) × Node)
      → ℤ
      → Bool
      → Bool
      → Bytes
      → Block
      → Node
      → Option Entry
      → Result NodeError (Unit {0}) × Node
  insert_below again now from_disk announce except_peer b n none = (err orphan, add_orphan b n)
  insert_below again now from_disk announce except_peer b n (some parent) =
      insert_checked again from_disk announce except_peer b n parent (check_block now parent b n)

  -- `insertBlockLocked`, with one reading of the clock for the whole call. The recursion through
  -- the orphans takes fuel; one more than the orphans that wait is enough.
  unfoldable pub insert_fuel :
      ℕ → ℤ → Bool → Bool → Bytes → Block → Node → Result NodeError (Unit {0}) × Node
  insert_fuel zero now from_disk announce except_peer b n = (err out_of_fuel, n)
  insert_fuel (suc fuel) now from_disk announce except_peer b n =
      let again = insert_fuel fuel now false true [] in
      if contains (block_hash b) n.blocks
      then (ok tt, n)
      else if is_rejected (block_hash b) n
      then (err previously_rejected, n)
      else if b.height == 0
      then insert_genesis b n
      else insert_below again now from_disk announce except_peer b n (lookup b.prev_hash n.blocks)

  unfoldable pub insert_block :
      ℤ → Bool → Bool → Bytes → Block → Node → Result NodeError (Unit {0}) × Node
  insert_block now from_disk announce except_peer b n =
      insert_fuel (suc (orphan_count n.orphans)) now from_disk announce except_peer b n
