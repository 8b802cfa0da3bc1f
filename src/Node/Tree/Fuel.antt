-- ===== src/Node/Tree/Fuel.antt =====
-- The fuel of a walk to the genesis block is enough.
use blu_gold.Base.{ℕ, zero, suc, ◌<◌, ◌≡◌, refl, Option, none, some, List, [], ◌∷◌, arith}
use blu_gold.Base.Dict.{Dict, lookup}
use blu_gold.Chain.Tx.{Hash}
use blu_gold.Node.Data.{Entry, Node}
use blu_gold.Node.Tree.{ancestors, path_to_genesis}

-- In the tree a parent is lower than its child, as `ValidateBasic` asks.
abbrev pub Descends : Dict Entry → Type 0
Descends blocks =
    (h : Hash) (e p : Entry)
    → lookup h blocks ≡ some e
    → lookup e.block.prev_hash blocks ≡ some p
    → p.block.height < e.block.height

-- One step, for any result of the lookup.
parent-enough :
    (f g : ℕ) (blocks : Dict Entry) (e : Entry) (o : Option Entry)
    → ((p : Entry) → o ≡ some p → ancestors f p blocks ≡ ancestors g p blocks)
    → e ∷ elim o as (λ x. List Entry) [ none ↦ [] | some p ↦ ancestors f p blocks ]
      ≡ e ∷ elim o as (λ x. List Entry) [ none ↦ [] | some p ↦ ancestors g p blocks ]
parent-enough f g blocks e none k = refl
parent-enough f g blocks e (some p) k = rw (k p refl) refl

pub ancestors-enough :
    (f g : ℕ) (blocks : Dict Entry) (h : Hash) (e : Entry)
    → Descends blocks
    → lookup h blocks ≡ some e
    → e.block.height < f
    → e.block.height < g
    → ancestors f e blocks ≡ ancestors g e blocks
unfolding ancestors
ancestors-enough zero g blocks h e d at hf hg = absurd (omega arith)
ancestors-enough (suc f) zero blocks h e d at hf hg = absurd (omega arith)
ancestors-enough (suc f) (suc g) blocks h e d at hf hg =
    parent-enough f g blocks e (lookup e.block.prev_hash blocks) (λ p q.
      ancestors-enough f g blocks e.block.prev_hash p d q (omega (arith, d h e p at q))
        (omega (arith, d h e p at q)))

-- For an entry of a tree in which every parent is lower than its child, any fuel above the height
-- of the entry gives the path that `path_to_genesis` gives: the walk of `pathToGenesisLocked` ends,
-- and it is not cut short.
pub path_to_genesis-enough :
    (fuel : ℕ) (n : Node) (h : Hash) (e : Entry)
    → Descends n.blocks
    → lookup h n.blocks ≡ some e
    → e.block.height < fuel
    → ancestors fuel e n.blocks ≡ path_to_genesis e n
unfolding path_to_genesis
path_to_genesis-enough fuel n h e d at hf =
    ancestors-enough fuel (suc e.block.height) n.blocks h e d at hf (omega arith)
