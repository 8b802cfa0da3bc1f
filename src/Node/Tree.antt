-- ===== src/Node/Tree.antt =====
-- The block tree: ancestors, children, and the removal of an invalid subtree.
pub mod Fuel
pub mod Pruned
pub mod Removal
use blu_gold.Base.{
  ℕ, zero, suc, ◌-◌, ◌%◌, true, not, ◌||◌, Option, none, some, List, [], ◌∷◌, bytes_eq, length,
  ◌==◌, leb, if◌then◌else◌, add_u64,
}
use mathlib.Core.List.{foldl}
use blu_gold.Base.Dict.{Dict, lookup, insert, erase}
use blu_gold.Chain.Tx.{Hash}
use blu_gold.Chain.Block.{Block}
use blu_gold.Node.Data.{Entry, Node}

-- The ancestors of an entry, the entry first: `for cur != nil`. Every step goes down one height, so
-- one more round than the height of the entry is enough.
unfoldable pub ancestors : ℕ → Entry → Dict Entry → List Entry
ancestors zero e blocks = []
ancestors (suc fuel) e blocks = e ∷ elim (lookup e.block.prev_hash blocks) [
  | none ↦ []
  | some parent ↦ ancestors fuel parent blocks
]

-- `pathToGenesisLocked`
unfoldable pub path_to_genesis : Entry → Node → List Entry
path_to_genesis e n = ancestors (suc e.block.height) e n.blocks

-- `tailAfter`
unfoldable pub tail_after : ℕ → List Entry → List Entry
tail_after from_height [] = []
tail_after from_height (e ∷ path) =
    let rest = tail_after from_height path in
    if leb from_height e.block.height then e ∷ rest else rest

-- The parent `steps` parents back.
unfoldable pub back : ℕ → Dict Entry → Entry → Option Entry
back zero blocks e = some e
back (suc steps) blocks e = elim (lookup e.block.prev_hash blocks) [
  | none ↦ none
  | some parent ↦ back steps blocks parent
]

-- `anchorLocked`
unfoldable pub anchor_of : Entry → Node → Option Block
anchor_of parent n =
    if n.params.blocks_per_retarget == 0
      || not (add_u64 parent.block.height 1 % n.params.blocks_per_retarget == 0)
    then none
    else elim (back (n.params.blocks_per_retarget - 1) n.blocks parent) [
      | none ↦ none
      | some anchor ↦ some anchor.block
    ]

-- `childrenLocked`
unfoldable pub children : Hash → Dict Entry → List Entry
children parent [] = []
children parent ((_, e) ∷ blocks) =
    let rest = children parent blocks in
    if bytes_eq e.block.prev_hash parent then e ∷ rest else rest

-- One call of the closure in `rejectSubtreeLocked`, before it goes on to the children.
abbrev pub reject_one : Entry → Node → Node
reject_one e n = record n {
  rejected = insert e.hash true n.rejected;
  blocks = erase e.hash n.blocks;
}

-- Every call takes one block away, so as many rounds as blocks are enough.
unfoldable pub reject_from : ℕ → Entry → Node → Node
reject_from zero e n = n
reject_from (suc fuel) e n =
    foldl (λ m child. reject_from fuel child m) (reject_one e n)
      (children e.hash (reject_one e n).blocks)

-- `rejectSubtreeLocked`
unfoldable pub reject_subtree : Entry → Node → Node
reject_subtree e n = reject_from (suc (length n.blocks)) e n
