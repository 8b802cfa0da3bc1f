-- ===== src/Node/Ledger/Placing.antt =====
-- A block that passes its checks stands in the tree, and moves no path.
use blu_gold.Base.{
  ℕ, suc, ◌≡◌, refl, sym, ap, ◌∙◌, subst, ◌⊎◌, inl, inr, Bool, true, false, Bool-cases, Option,
  Option-cases, none, some, arith, bytes_eq, bytes_eq→eq, IsU64, ok, ◌==◌,
}
use blu_gold.Base.Int.{ℤ}
use blu_gold.Base.Dict.{Dict, lookup, insert, lookup-insert}
use blu_gold.Base.Dict.Unique.{Unique-insert}
use blu_gold.Crypto.Interface.{Primitives}
use blu_gold.Chain.Params.{Params}
use blu_gold.Chain.Tx.{Hash}
use blu_gold.Chain.Block.{Block, block_hash, genesis, zero_hash, validate_basic, validate_child}
use blu_gold.State.Monad.{State}
use blu_gold.Node.Data.{Entry, Node}
use blu_gold.Node.Tree.Pruned.{Prunes}
use blu_gold.Node.Insert.{check_block, place, entry_below}
use blu_gold.Node.Ledger.{index_of, chain_state}
use blu_gold.Node.Ledger.Paths.{path_in, Tree, Child, Root}
use blu_gold.Node.Ledger.Replay.{Marks}
use blu_gold.Node.Ledger.Pruning.{path-Prunes}
use blu_gold.Node.Ledger.Follows.{Chain, Follows}

module _ ⦃c : Primitives⦄ where
  -- A block that can stand on an entry of the tree, and is not there yet.
  pub record Fits (p : Params) (blocks : Dict Entry) (parent : Entry) (b : Block) : Type 0 where
    pub new : lookup (block_hash b) blocks ≡ none
    pub real : ¬ (block_hash b ≡ zero_hash)
    pub on : lookup b.prev_hash blocks ≡ some parent
    pub above : b.height ≡ suc parent.block.height
    pub small : IsU64 b.height

  pub check_block-above :
      (now : ℤ) (parent : Entry) (b : Block) (n : Node) (u : Unit {0})
      → IsU64 parent.block.height
      → (b.height == 0) ≡ false
      → check_block now parent b n ≡ ok u
      → (b.height ≡ suc parent.block.height) × IsU64 b.height
  unfolding check_block validate_basic validate_child
  check_block-above now parent b n u small nz q = ground (arith, nz, q)

  module _ {p : Params} {blocks : Dict Entry} (t : Tree p blocks) (parent : Entry) (b : Block)
      (fit : Fits p blocks parent b) where
    abbrev pub grown : Dict Entry
    grown = insert (block_hash b) (entry_below parent b) blocks

    kept : (h : Hash) (e : Entry) → lookup h blocks ≡ some e → lookup h grown ≡ some e
    kept h e q = ground (
      arith,
      q,
      fit.new,
      lookup-insert (block_hash b) h (entry_below parent b) blocks,
      bytes_eq→eq (block_hash b) h,
    )

    either :
        (h : Hash) (e : Entry)
        → lookup h grown ≡ some e
        → (lookup h blocks ≡ some e) ⊎ ((h ≡ block_hash b) × (e ≡ entry_below parent b))
    either h e q = elim (Bool-cases (bytes_eq (block_hash b) h)) [
      | inl same ↦ inr (
        sym (bytes_eq→eq (block_hash b) h same),
        ground (arith, q, same, lookup-insert (block_hash b) h (entry_below parent b) blocks),
      )
      | inr other ↦
          inl
            (ground (arith, q, other, lookup-insert (block_hash b) h (entry_below parent b) blocks))
    ]

    -- The old tree is what is left of the new one without the new block.
    kept-Prunes : Prunes grown blocks
    kept-Prunes = record {
      fewer = kept;
      rooted = λ h e d at up. elim (t.shape h e at) [
        | inl (low, root) ↦ elim (either e.block.prev_hash d up) [
          | inl q ↦ q
          | inr (q, is) ↦ absurd (fit.real (sym q ∙ root))
        ]
        | inr (d', ch) ↦ ground (arith, ch.parent, up, kept e.block.prev_hash d' ch.parent)
      ];
    }

    placed_shape :
        (h : Hash) (e : Entry) → lookup h grown ≡ some e → Root e ⊎ ((d : Entry) × Child grown e d)
    placed_shape h e q = elim (either h e q) [
      | inl at ↦ elim (t.shape h e at) [
        | inl root ↦ inl root
        | inr (d, ch) ↦ inr (
          d,
          record {
            parent = kept e.block.prev_hash d ch.parent;
            above = ch.above;
            heavier = ch.heavier;
          },
        )
      ]
      | inr (_, is) ↦
          subst (λ x. Root x ⊎ ((d : Entry) × Child grown x d)) (sym is)
            (inr (
              parent,
              record { parent = kept b.prev_hash parent fit.on; above = fit.above; heavier = refl },
            ))
    ]

    pub placed-Tree : Tree p grown
    placed-Tree = record {
      unique = Unique-insert (block_hash b) (entry_below parent b) blocks t.unique;
      keyed = λ h e q. elim (either h e q) [
        | inl at ↦ t.keyed h e at
        | inr (same, is) ↦ ap (λ (x : Entry). x.hash) is ∙ sym same
      ];
      hashed = λ h e q. elim (either h e q) [
        | inl at ↦ t.hashed h e at
        | inr (same, is) ↦ ap (λ (x : Entry). block_hash x.block) is ∙ sym same
      ];
      shape = placed_shape;
      fits = λ h e q. elim (either h e q) [
        | inl at ↦ t.fits h e at
        | inr (same, is) ↦ omega (arith, fit.small, ap (λ (x : Entry). x.block.height) is)
      ];
      started = let (g, at, root) = t.started in (g, kept (block_hash (genesis p)) g at, root);
      no_zero = elim (Option-cases (lookup zero_hash grown)) [
        | inl q ↦ q
        | inr (e, q) ↦ elim (either zero_hash e q) [
          | inl at ↦ absurd (cc (at, t.no_zero))
          | inr (same, _) ↦ absurd (fit.real (sym same))
        ]
      ];
    }

    same_path :
        (h : Hash) (e : Entry) → lookup h blocks ≡ some e → path_in blocks e ≡ path_in grown e
    same_path h e at = path-Prunes grown blocks h e kept-Prunes at

    placed-Marks : (marks : Dict State) → Marks p blocks marks → Marks p grown marks
    placed-Marks marks m h s k =
        let (e, at, made) = m h s k in
        (e, kept h e at, ap (chain_state p) (sym (same_path h e at)) ∙ made)

    pub placed-Chain :
        (marks : Dict State) (tip : Option Entry) (s : State) (heights : ℕ → Option Hash)
        → Chain p blocks marks tip s heights
        → Chain p grown marks tip s heights
    placed-Chain marks tip s heights f = record {
      tree = placed-Tree;
      marks_right = placed-Marks marks f.marks_right;
      current = λ x is.
          let a = f.current x is in
          let same = same_path x.hash x a.listed in
          record {
            listed = kept x.hash x a.listed;
            made = ap (chain_state p) (sym same) ∙ a.made;
            indexed = λ h. a.indexed h ∙ ap (λ l. index_of l h) same;
          };
    }

  pub place-Follows :
      (from_disk : Bool) (parent : Entry) (b : Block) (n : Node)
      → Follows n
      → Fits n.params n.blocks parent b
      → Follows (place from_disk parent b n)
  unfolding place
  place-Follows true parent b n f fit =
      placed-Chain f.tree parent b fit n.checkpoints n.tip n.state n.chain_heights f
  place-Follows false parent b n f fit =
      placed-Chain f.tree parent b fit n.checkpoints n.tip n.state n.chain_heights f
