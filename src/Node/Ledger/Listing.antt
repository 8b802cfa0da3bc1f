-- ===== src/Node/Ledger/Listing.antt =====
-- The hashes of a chain, by height, and the entries of the tree that they name.
use blu_gold.Base.{ℕ, zero, suc, ◌≤◌, ◌<◌, ◌≡◌, refl, inl, inr, Bool-cases, some, arith, ◌==◌}
use blu_gold.Base.Dict.{Dict, lookup}
use blu_gold.Crypto.Interface.{Primitives}
use blu_gold.Chain.Params.{Params}
use blu_gold.Chain.Tx.{Hash}
use blu_gold.Node.Data.{Entry}
use blu_gold.Node.Ledger.{index_of}
use blu_gold.Node.Ledger.Paths.{path_in, Tree, path_root, path-Child}
use blu_gold.Node.Ledger.Index.{own}

-- The chain of `tip` has the block with this hash at this height.
abbrev pub OnChain : Dict Entry → Entry → ℕ → Hash → Type 0
OnChain blocks tip h g = index_of (path_in blocks tip) h ≡ some g

module _ ⦃c : Primitives⦄ where
  module _ {p : Params} {blocks : Dict Entry} (t : Tree p blocks) where
    -- A hash in a path is one of the tree.
    pub index-listed :
        (k : ℕ) (g q : Hash) (e : Entry) (h : ℕ)
        → lookup g blocks ≡ some e
        → e.block.height < k
        → index_of (path_in blocks e) h ≡ some q
        → (x : Entry) × (lookup q blocks ≡ some x)
    unfolding index_of
    index-listed zero g q e h at small i = absurd (omega arith)
    index-listed (suc k) g q e h at small i = elim (t.shape g e at) [
      | inl root ↦ (e, ground (arith, own t g e at, rw (path_root t g e at root) at i))
      | inr (d, ch) ↦ elim (Bool-cases (h == e.block.height)) [
        | inl here ↦ (e, ground (arith, here, own t g e at, rw (path-Child t g e d at ch) at i))
        | inr other ↦
            index-listed k e.block.prev_hash q d h ch.parent (omega (arith, ch.above))
              (rw other at rw (path-Child t g e d at ch) at i)
      ]
    ]

    -- A path has an entry at every height up to that of its head.
    pub listed_below :
        (k : ℕ) (g : Hash) (e : Entry) (h : ℕ)
        → lookup g blocks ≡ some e
        → e.block.height < k
        → h ≤ e.block.height
        → (x : Entry) × OnChain blocks e h x.hash × (lookup x.hash blocks ≡ some x)
    unfolding index_of
    listed_below zero g e h at small low = absurd (omega arith)
    listed_below (suc k) g e h at small low = elim (Bool-cases (h == e.block.height)) [
      | inl here ↦ elim (t.shape g e at) [
        | inl root ↦ (e, rw (path_root t g e at root, here) refl, own t g e at)
        | inr (d, ch) ↦ (e, rw (path-Child t g e d at ch, here) refl, own t g e at)
      ]
      | inr other ↦ elim (t.shape g e at) [
        | inl root ↦ absurd (ground (arith, other, root.0, low))
        | inr (d, ch) ↦
            let (x, on, l) =
              listed_below k e.block.prev_hash d h ch.parent (omega (arith, ch.above))
                (ground (arith, other, low, ch.above)) in
            (x, rw (path-Child t g e d at ch, other) on, l)
      ]
    ]
