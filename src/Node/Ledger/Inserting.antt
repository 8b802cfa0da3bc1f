-- ===== src/Node/Ledger/Inserting.antt =====
-- An insertion, with the orphans that it frees, keeps the node on the state of its chain.
use blu_gold.Base.{
  ℕ, zero, suc, ◌≡◌, refl, inl, inr, Bool, true, false, Bool-cases, Option, none, some, List, [],
  ◌∷◌, Bytes, bytes_eq, bytes_eq→eq, Result, ok, err, ◌==◌, if◌then◌else◌, not, ◌&&◌, ◌||◌, leb,
}
use mathlib.Core.List.{foldl}
use blu_gold.Base.Int.{ℤ}
use blu_gold.Base.Dict.{lookup, erase, contains}
use blu_gold.Crypto.Interface.{Primitives}
use blu_gold.Chain.Tx.{Hash}
use blu_gold.Chain.Block.{Block, block_hash, genesis, zero_hash}
use blu_gold.Node.Data.{
  Entry, Node, NodeError, previously_rejected, sent_block, max_orphans, emit, is_rejected,
}
use blu_gold.Node.Switch.{select_tip}
use blu_gold.Node.Insert.{
  orphan_count, waiting, add_orphan, check_block, after_promotion, insert_genesis, holds_orphan,
  promote_orphans, accept_block, insert_checked, insert_below, insert_fuel, insert_block,
}
use blu_gold.Node.Ledger.Follows.{Follows}
use blu_gold.Node.Ledger.Selecting.{select_tip-Follows}
use blu_gold.Node.Ledger.Placing.{check_block-above, place-Follows}

module _ ⦃c : Primitives⦄ where
  -- No block has the hash of 32 zero bytes, which stands for the parent of the genesis block.
  abbrev pub NoZeroHash : Type 0
  NoZeroHash = (b : Block) → ¬ (block_hash b ≡ zero_hash)

  -- A call that inserts a block and keeps the node on the state of its chain.
  abbrev Keeps : (Block → Node → Result NodeError (Unit {0}) × Node) → Type 0
  Keeps again = (b : Block) (m : Node) → Follows m → Follows (again b m).1

  foldl-Follows :
      (again : Block → Node → Result NodeError (Unit {0}) × Node) (bs : List Block) (m : Node)
      → Keeps again
      → Follows m
      → Follows (foldl (λ m b. (again b m).1) m bs)
  foldl-Follows again [] m k f = f
  foldl-Follows again (b ∷ bs) m k f = foldl-Follows again bs (again b m).1 k (k b m f)

  promote-Follows :
      (again : Block → Node → Result NodeError (Unit {0}) × Node) (h : Hash) (n : Node)
      → Keeps again
      → Follows n
      → Follows (promote_orphans again h n)
  unfolding promote_orphans
  promote-Follows again h n k f =
      foldl-Follows again (waiting h n.orphans) (record n { orphans = erase h n.orphans }) k f

  add_orphan-Follows : (b : Block) (n : Node) → Follows n → Follows (add_orphan b n)
  unfolding add_orphan
  add_orphan-Follows b n f =
      elim (Bool-cases
        (holds_orphan (block_hash b) n.orphans || leb max_orphans (orphan_count n.orphans))) [
          | inl full ↦ rw full f
          | inr room ↦ rw room f
        ]

  after_promotion-Follows :
      (announce : Bool) (except_peer : Bytes) (b : Block) (n : Node)
      → Follows n
      → Follows (after_promotion announce except_peer b n)
  unfolding after_promotion
  after_promotion-Follows announce except_peer b n f =
      chosen n.booting (announce && not n.booting && n.networked)
        (emit (sent_block b except_peer) n) f
    where
      chosen :
          (booting said : Bool) (m : Node)
          → Follows m
          → Follows
              (if booting then (if said then m else n) else select_tip (if said then m else n))
      chosen true true m g = g
      chosen true false m g = f
      chosen false true m g = select_tip-Follows m g
      chosen false false m g = select_tip-Follows n f

  -- The genesis block is in the tree, so no other block is taken for it.
  genesis-Follows :
      (b : Block) (n : Node)
      → Follows n
      → lookup (block_hash b) n.blocks ≡ none
      → Follows (insert_genesis b n).1
  unfolding insert_genesis
  genesis-Follows b n f new =
      elim (Bool-cases (bytes_eq (block_hash b) (block_hash (genesis n.params)))) [
        | inr other ↦ rw other f
        | inl same ↦
            let (g, at, root) = f.tree.started in
            absurd (cc (new, at, bytes_eq→eq (block_hash b) (block_hash (genesis n.params)) same))
      ]

  module _ (real : NoZeroHash) where
    below-Follows :
        (again : Block → Node → Result NodeError (Unit {0}) × Node) (now : ℤ)
        (from_disk announce : Bool) (except_peer : Bytes) (b : Block) (n : Node) (o : Option Entry)
        → Keeps again
        → Follows n
        → lookup (block_hash b) n.blocks ≡ none
        → (b.height == 0) ≡ false
        → lookup b.prev_hash n.blocks ≡ o
        → Follows (insert_below again now from_disk announce except_peer b n o).1
    unfolding insert_below
    below-Follows again now from_disk announce except_peer b n none k f new nz at =
        add_orphan-Follows b n f
    below-Follows again now from_disk announce except_peer b n (some parent) k f new nz at =
        checked (check_block now parent b n) refl
      where
        checked :
            (r : Result NodeError (Unit {0}))
            → check_block now parent b n ≡ r
            → Follows (insert_checked again from_disk announce except_peer b n parent r).1
        checked (err e) q = unfold insert_checked in f
        checked (ok u) q =
            let (above, small) =
              check_block-above now parent b n u (f.tree.fits b.prev_hash parent at) nz q in
            unfold insert_checked accept_block in
            after_promotion-Follows announce except_peer b _ (
              promote-Follows again (block_hash b) _ k (
                place-Follows from_disk parent b n f
                  (record { new = new; real = real b; on = at; above = above; small = small })))

    insert_fuel-Follows :
        (fuel : ℕ) (now : ℤ) (from_disk announce : Bool) (except_peer : Bytes) (b : Block)
        (n : Node)
        → Follows n
        → Follows (insert_fuel fuel now from_disk announce except_peer b n).1
    unfolding insert_fuel
    insert_fuel-Follows zero now from_disk announce except_peer b n f = f
    insert_fuel-Follows (suc fuel) now from_disk announce except_peer b n f =
        guarded (contains (block_hash b) n.blocks) (is_rejected (block_hash b) n) (b.height == 0)
          (missing (lookup (block_hash b) n.blocks)) refl
          (λ x m g. insert_fuel-Follows fuel now false true [] x m g)
      where
        again : Block → Node → Result NodeError (Unit {0}) × Node
        again = insert_fuel fuel now false true []

        missing : (o : Option Entry) → elim o [ none ↦ false | some _ ↦ true ] ≡ false → o ≡ none
        missing none q = refl
        missing (some e) q = absurd (cc (q))

        guarded :
            (there bad low : Bool)
            → (there ≡ false → lookup (block_hash b) n.blocks ≡ none)
            → (b.height == 0) ≡ low
            → Keeps again
            → Follows
                (if there
                  then (ok tt, n)
                  else if bad
                  then (err previously_rejected, n)
                  else if low
                  then insert_genesis b n
                  else insert_below again now from_disk announce except_peer b n
                      (lookup b.prev_hash n.blocks)).1
        guarded true bad low new q k = f
        guarded false true low new q k = f
        guarded false false true new q k = genesis-Follows b n f (new refl)
        guarded false false false new q k =
            below-Follows again now from_disk announce except_peer b n (lookup b.prev_hash n.blocks)
              k f (new refl) q refl

    -- `insertBlockLocked`, of any block, where no block has the hash of 32 zero bytes: a node that
    -- follows its chain follows it afterwards. To follow the chain is: the tree has each entry
    -- once, under the hash of its block, and every entry but a genesis block stands one height
    -- above a parent, with the parent's work and its own difficulty; each checkpoint is the state
    -- that the blocks of its chain make, one by one, of no accounts; and where there is a tip, it
    -- is in the tree, the node's state is what the blocks of its chain make of no accounts, and the
    -- index by height is that of its chain.
    pub insert_block-Follows :
        (now : ℤ) (from_disk announce : Bool) (except_peer : Bytes) (b : Block) (n : Node)
        → Follows n
        → Follows (insert_block now from_disk announce except_peer b n).1
    unfolding insert_block
    insert_block-Follows now from_disk announce except_peer b n f =
        insert_fuel-Follows _ now from_disk announce except_peer b n f
