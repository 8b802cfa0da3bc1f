-- ===== src/Node/Ledger/Pruning.antt =====
-- The removal of a subtree whose chain has no state.
use blu_gold.Base.{
  ℕ, zero, suc, ◌≡◌, refl, ap, ◌∙◌, inl, inr, Option, Option-cases, none, some, List, [], ◌∷◌,
  arith,
}
use mathlib.Core.List.{foldl}
use blu_gold.Base.Dict.{Dict, lookup}
use blu_gold.Crypto.Interface.{Primitives}
use blu_gold.Chain.Params.{Params}
use blu_gold.Chain.Tx.{Hash}
use blu_gold.Chain.Block.{block_hash, genesis, zero_hash}
use blu_gold.Node.Data.{Entry, Node}
use blu_gold.Node.Tree.{ancestors, children, reject_one, reject_from, reject_subtree}
use blu_gold.Node.Tree.Pruned.{Prunes, gone, Below, here, up}
use blu_gold.Node.Tree.Removal.{Removes}
use blu_gold.Node.Ledger.{entry_state, chain_state}
use blu_gold.Node.Ledger.Paths.{path_in, Tree, Root, path_root, path-Child}

-- The fields that a removal leaves alone.
abbrev pub SameButTree : Node → Node → Type 0
SameButTree n m = m ≡ record n { rejected = m.rejected; blocks = m.blocks }

fold-SameButTree :
    (f : Node → Entry → Node) (es : List Entry) (n m : Node)
    → ((k : Node) (e : Entry) → SameButTree k (f k e))
    → SameButTree n m
    → SameButTree n (foldl f m es)
fold-SameButTree f [] n m h q = q
fold-SameButTree f (e ∷ es) n m h q =
    fold-SameButTree f es n (f m e) h (
      h m e
      ∙ ap (λ (k : Node). record k { rejected = (f m e).rejected; blocks = (f m e).blocks }) q)

reject_from-SameButTree : (fuel : ℕ) (e : Entry) (n : Node) → SameButTree n (reject_from fuel e n)
unfolding reject_from
reject_from-SameButTree zero e n = refl
reject_from-SameButTree (suc fuel) e n =
    fold-SameButTree _ (children e.hash (reject_one e n).blocks) n (reject_one e n)
      (λ k child. reject_from-SameButTree fuel child k) refl

pub reject_subtree-SameButTree : (e : Entry) (n : Node) → SameButTree n (reject_subtree e n)
unfolding reject_subtree
reject_subtree-SameButTree e n = reject_from-SameButTree _ e n

-- A path that is left is as it was.
path_step :
    (f : ℕ) (a b : Dict Entry) (e : Entry) (o o' : Option Entry)
    → ((d : Entry) → o ≡ some d → (o' ≡ some d) × (ancestors f d b ≡ ancestors f d a))
    → (o ≡ none → o' ≡ none)
    → e ∷ elim o' as (λ x. List Entry) [ none ↦ [] | some d ↦ ancestors f d b ]
      ≡ e ∷ elim o as (λ x. List Entry) [ none ↦ [] | some d ↦ ancestors f d a ]
path_step f a b e none o' k l = rw (l refl) refl
path_step f a b e (some d) o' k l = let (q, same) = k d refl in rw (q, same) refl

ancestors-Prunes :
    (f : ℕ) (a b : Dict Entry) (h : Hash) (e : Entry)
    → Prunes a b
    → lookup h b ≡ some e
    → ancestors f e b ≡ ancestors f e a
unfolding ancestors
ancestors-Prunes zero a b h e p at = refl
ancestors-Prunes (suc f) a b h e p at =
    path_step f a b e (lookup e.block.prev_hash a) (lookup e.block.prev_hash b)
      (λ d q.
        let left = p.rooted h e d at q in (left, ancestors-Prunes f a b e.block.prev_hash d p left))
      (gone a b e.block.prev_hash p)

pub path-Prunes :
    (a b : Dict Entry) (h : Hash) (e : Entry)
    → Prunes a b
    → lookup h b ≡ some e
    → path_in b e ≡ path_in a e
path-Prunes a b h e p at = ancestors-Prunes (suc e.block.height) a b h e p at

module _ ⦃c : Primitives⦄ where
  above_none :
      (p : Params) (e : Entry) (below : List Entry)
      → chain_state p below ≡ none
      → chain_state p (e ∷ below) ≡ none
  unfolding chain_state
  above_none p e below n = ground (arith, n)

  module _ {p : Params} {blocks : Dict Entry} (t : Tree p blocks) where
    -- Above a chain with no state there is none.
    pub Below-none :
        (x : Entry) {e : Entry} (h : Hash)
        → Below blocks x e
        → lookup h blocks ≡ some e
        → chain_state p (path_in blocks x) ≡ none
        → chain_state p (path_in blocks e) ≡ none
    unfolding chain_state
    Below-none x h here at bad = bad
    Below-none x h (up e d q b) at bad = elim (t.shape h e at) [
      | inl (low, root) ↦ absurd (cc (q, root, t.no_zero))
      | inr (d', ch) ↦
          let is : d' ≡ d = ground (arith, q, ch.parent) in
          let none_below = Below-none x e.block.prev_hash b q bad in
          rw (path-Child t h e d' at ch, is) (above_none p e (path_in blocks d) none_below)
    ]

    -- The genesis block has a state.
    root_state :
        (h : Hash) (e : Entry)
        → lookup h blocks ≡ some e
        → Root e
        → chain_state p (path_in blocks e) ≡ some []
    unfolding chain_state entry_state
    root_state h e at root = rw (path_root t h e at root) (ground (arith, root.0))

    kept_started :
        (x : Entry) (after : Dict Entry)
        → Removes x blocks after
        → chain_state p (path_in blocks x) ≡ none
        → (g : Entry) × (lookup (block_hash (genesis p)) after ≡ some g) × Root g
    kept_started x after r bad =
        let (g, at, root) = t.started in
        elim (Option-cases (lookup (block_hash (genesis p)) after)) [
          | inr (g', left) ↦
              let is : g' ≡ g = ground (arith, at, left, r.prunes.fewer _ g' left) in
              (g, rw is at left, root)
          | inl lost ↦
              let below = r.below (block_hash (genesis p)) g at lost in
              absurd
                (cc (Below-none x (block_hash (genesis p)) below at bad, root_state _ g at root))
        ]

    -- Where a block whose chain has no state is taken away with its subtree, the rest is a tree.
    pub Tree-Removes :
        (x : Entry) (after : Dict Entry)
        → Removes x blocks after
        → chain_state p (path_in blocks x) ≡ none
        → Tree p after
    Tree-Removes x after r bad = record {
      unique = r.unique;
      keyed = λ h e q. t.keyed h e (r.prunes.fewer h e q);
      hashed = λ h e q. t.hashed h e (r.prunes.fewer h e q);
      shape = λ h e q. elim (t.shape h e (r.prunes.fewer h e q)) [
        | inl root ↦ inl root
        | inr (d, ch) ↦ inr (
          d,
          record {
            parent = r.prunes.rooted h e d q ch.parent;
            above = ch.above;
            heavier = ch.heavier;
          },
        )
      ];
      fits = λ h e q. t.fits h e (r.prunes.fewer h e q);
      started = kept_started x after r bad;
      no_zero = gone blocks after zero_hash r.prunes t.no_zero;
    }
