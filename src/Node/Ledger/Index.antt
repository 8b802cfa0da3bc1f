-- ===== src/Node/Ledger/Index.antt =====
-- The index by height is that of a chain.
use blu_gold.Base.{
  ℕ, zero, suc, ◌≤◌, ◌<◌, ◌≡◌, refl, sym, subst, ap, ◌∙◌, ◌⊎◌, inl, inr, Bool-cases, Option, none,
  some, List, [], ◌∷◌, arith, add_u64, u64_mod, ◌==◌,
}
use blu_gold.Base.Dict.{Dict, lookup}
use blu_gold.Crypto.Interface.{Primitives}
use blu_gold.Chain.Params.{Params}
use blu_gold.Chain.Tx.{Hash}
use blu_gold.Chain.Block.{block_hash}
use blu_gold.Node.Data.{Entry, Node}
use blu_gold.Node.Tree.{ancestors}
use blu_gold.Node.Sync.{active_entry}
use blu_gold.Node.Sync.Batch.{Indexed}
use blu_gold.Node.Ledger.{index_of}
use blu_gold.Node.Ledger.Paths.{path_in, Tree, path_root, path-Child}
use blu_gold.Node.Ledger.Follows.{Active, Follows}

-- The entry of a path at a height.
abbrev pub At : Dict Entry → List Entry → ℕ → Entry → Type 0
At blocks path h x = (h' : Hash) × (index_of path h ≡ some h') × (lookup h' blocks ≡ some x)

module _ ⦃c : Primitives⦄ where
  module _ {p : Params} {blocks : Dict Entry} (t : Tree p blocks) where
    pub own : (k : Hash) (e : Entry) → lookup k blocks ≡ some e → lookup e.hash blocks ≡ some e
    own k e at = ap (λ g. lookup g blocks) (t.keyed k e at) ∙ at

    -- At the height of its head, a path has its head.
    At-head :
        (k : Hash) (e x : Entry)
        → lookup k blocks ≡ some e
        → At blocks (path_in blocks e) e.block.height x
        → x ≡ e
    unfolding ancestors index_of
    At-head k e x at (g, q, l) = ground (arith, q, l, own k e at)

    pub At-cons :
        (e x : Entry) (below : List Entry) (h : ℕ)
        → lookup e.hash blocks ≡ some e
        → At blocks (e ∷ below) h x
        → ((h ≡ e.block.height) × (x ≡ e)) ⊎ At blocks below h x
    unfolding index_of
    At-cons e x below h at (g, q, l) = elim (Bool-cases (h == e.block.height)) [
      | inl here ↦ inl (ground (arith, here), ground (arith, here, q, l, at))
      | inr other ↦ inr (g, ground (arith, other, q), l)
    ]

    pub At-height :
        (k : ℕ) (g : Hash) (e x : Entry) (h : ℕ)
        → lookup g blocks ≡ some e
        → e.block.height < k
        → At blocks (path_in blocks e) h x
        → (x.block.height ≡ h) × (h ≤ e.block.height)
    unfolding index_of
    At-height zero g e x h at small a = absurd (omega arith)
    At-height (suc k) g e x h at small a = elim (t.shape g e at) [
      | inl root ↦ elim (At-cons e x [] h (own g e at) (rw (path_root t g e at root) at a)) [
        | inl (q, is) ↦ (ap (λ (y : Entry). y.block.height) is ∙ sym q, omega (arith, q))
        | inr (g', q, l) ↦ absurd (cc (q))
      ]
      | inr (d, ch) ↦
          elim (At-cons e x (path_in blocks d) h (own g e at)
            (rw (path-Child t g e d at ch) at a)) [
              | inl (q, is) ↦ (ap (λ (y : Entry). y.block.height) is ∙ sym q, omega (arith, q))
              | inr below ↦
                  let (same, low) =
                    At-height k e.block.prev_hash d x h ch.parent (omega (arith, ch.above)) below in
                  (same, omega (arith, low, ch.above))
            ]
    ]

    At-linked :
        (k : ℕ) (g : Hash) (e x y : Entry) (h : ℕ)
        → lookup g blocks ≡ some e
        → e.block.height < k
        → At blocks (path_in blocks e) h x
        → At blocks (path_in blocks e) (suc h) y
        → y.block.prev_hash ≡ block_hash x.block
    At-linked zero g e x y h at small a b = absurd (omega arith)
    At-linked (suc k) g e x y h at small a b = elim (t.shape g e at) [
      | inl root ↦ absurd (omega (arith, root.0, At-height (suc k) g e y (suc h) at small b))
      | inr (d, ch) ↦
          let q = path-Child t g e d at ch in
          elim (At-cons e y (path_in blocks d) (suc h) (own g e at) (rw q at b)) [
            | inl (top, is) ↦ elim (At-cons e x (path_in blocks d) h (own g e at) (rw q at a)) [
              | inl (same, _) ↦ absurd (omega (arith, top, same))
              | inr a' ↦
                  let level : h ≡ d.block.height = omega (arith, top, ch.above) in
                  let parent =
                    At-head e.block.prev_hash d x ch.parent
                      (subst (λ l. At blocks (path_in blocks d) l x) level a') in
                  ap (λ (z : Entry). z.block.prev_hash) is
                  ∙ (sym (t.hashed e.block.prev_hash d ch.parent)
                      ∙ ap (λ (z : Entry). block_hash z.block) (sym parent))
            ]
            | inr b' ↦ elim (At-cons e x (path_in blocks d) h (own g e at) (rw q at a)) [
              | inl (same, _) ↦ absurd (
                  omega (
                    arith,
                    same,
                    ch.above,
                    At-height k e.block.prev_hash d y (suc h) ch.parent (omega (arith, ch.above))
                        b',
                  ))
              | inr a' ↦
                  At-linked k e.block.prev_hash d x y h ch.parent (omega (arith, ch.above)) a' b'
            ]
          ]
    ]

  -- Where the tip is not at the last height of all, the index is that of a chain.
  pub Follows-Indexed :
      (n : Node) (tip : Entry)
      → Follows n
      → n.tip ≡ some tip
      → suc tip.block.height < u64_mod
      → Indexed n
  unfolding active_entry
  Follows-Indexed n tip f is room = record {
    at_height = λ h e q.
        (At-height f.tree (suc tip.block.height) tip.hash tip e h a.listed (omega arith)
          (found h e q)).0;
    linked = λ h e d q r.
        let at : At n.blocks (path_in n.blocks tip) h e = found h e q in
        let low =
          At-height f.tree (suc tip.block.height) tip.hash tip e h a.listed (omega arith) at in
        At-linked f.tree (suc tip.block.height) tip.hash tip e d h a.listed (omega arith) at
          (found (suc h) d (next h d (omega (arith, low)) r));
  }
    where
      a : Active n.params n.blocks n.state n.chain_heights tip
      a = f.current tip is

      next :
          (h : ℕ) (d : Entry)
          → suc h < u64_mod
          → active_entry (add_u64 h 1) n ≡ some d
          → active_entry (suc h) n ≡ some d
      next h d small q = let same : add_u64 h 1 ≡ suc h = omega arith in rw same at q

      found :
          (h : ℕ) (x : Entry) → active_entry h n ≡ some x → At n.blocks (path_in n.blocks tip) h x
      found h x q =
          let (g, q', l) = stored_at (n.chain_heights h) q in (g, sym (a.indexed h) ∙ q', l)
        where
          stored_at :
              (o : Option Hash)
              → elim o as (λ z. Option Entry) [ none ↦ none | some hash ↦ lookup hash n.blocks ]
                ≡ some x
              → (g : Hash) × (o ≡ some g) × (lookup g n.blocks ≡ some x)
          stored_at none r = absurd (cc (r))
          stored_at (some g) r = (g, refl, r)
