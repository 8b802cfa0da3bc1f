-- ===== src/Node/Ledger/Paths.antt =====
-- The tree of a node, and the paths in it.
use blu_gold.Base.{suc, ◌+◌, ◌≡◌, ap, ◌⊎◌, inl, inr, none, some, List, [], ◌∷◌, arith, IsU64}
use blu_gold.Base.Dict.{Dict, lookup}
use blu_gold.Base.Dict.Unique.{Unique}
use blu_gold.Crypto.Interface.{Primitives}
use blu_gold.Chain.Params.{Params}
use blu_gold.Chain.Tx.{Hash}
use blu_gold.Chain.Block.{zero_hash, block_hash, genesis}
use blu_gold.Node.Data.{Entry}
use blu_gold.Node.Tree.{ancestors}
use blu_gold.Node.Tree.Fuel.{Descends, ancestors-enough}
use blu_gold.Node.Tree.Pruned.{Keyed}

-- `pathToGenesisLocked`, in a tree.
abbrev pub path_in : Dict Entry → Entry → List Entry
path_in blocks e = ancestors (suc e.block.height) e blocks

-- An entry stands on its parent.
pub record Child (blocks : Dict Entry) (e d : Entry) : Type 0 where
  pub parent : lookup e.block.prev_hash blocks ≡ some d
  pub above : e.block.height ≡ suc d.block.height
  pub heavier : e.work ≡ d.work + e.block.difficulty

abbrev pub Root : Entry → Type 0
Root e = (e.block.height ≡ 0) × (e.block.prev_hash ≡ zero_hash)

module _ ⦃c : Primitives⦄ where
  -- The tree that a node keeps: each entry under its own hash, once; every entry but the genesis
  -- block on its parent; and the genesis block.
  pub record Tree (p : Params) (blocks : Dict Entry) : Type 0 where
    pub unique : Unique blocks
    pub keyed : Keyed blocks
    pub hashed : (h : Hash) (e : Entry) → lookup h blocks ≡ some e → block_hash e.block ≡ h
    pub shape :
        (h : Hash) (e : Entry)
        → lookup h blocks ≡ some e
        → Root e ⊎ ((d : Entry) × Child blocks e d)
    pub fits : (h : Hash) (e : Entry) → lookup h blocks ≡ some e → IsU64 e.block.height
    pub started : (g : Entry) × (lookup (block_hash (genesis p)) blocks ≡ some g) × Root g
    pub no_zero : lookup zero_hash blocks ≡ none

  module _ {p : Params} {blocks : Dict Entry} (t : Tree p blocks) where
    pub Tree-Descends : Descends blocks
    Tree-Descends h e d at up = elim (t.shape h e at) [
      | inl (low, root) ↦ absurd (cc (up, t.no_zero, root))
      | inr (d', ch) ↦
          let is : d' ≡ d = ground (arith, up, ch.parent) in
          omega (arith, ch.above, ap (λ (x : Entry). x.block.height) is)
    ]

    pub path_root :
        (h : Hash) (e : Entry) → lookup h blocks ≡ some e → Root e → path_in blocks e ≡ e ∷ []
    unfolding ancestors
    path_root h e at (low, root) = ground (arith, root, t.no_zero)

    pub path-Child :
        (h : Hash) (e d : Entry)
        → lookup h blocks ≡ some e
        → Child blocks e d
        → path_in blocks e ≡ e ∷ path_in blocks d
    unfolding ancestors
    path-Child h e d at ch = ground (
      arith,
      ch.parent,
      ancestors-enough e.block.height (suc d.block.height) blocks e.block.prev_hash d Tree-Descends
          ch.parent (omega (arith, ch.above)) (omega arith),
    )
