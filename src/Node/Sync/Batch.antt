-- ===== src/Node/Sync/Batch.antt =====
-- The batches that answer a locator.
use blu_gold.Base.{
  ℕ, zero, suc, ◌+◌, ◌≤◌, ◌<◌, ◌≡◌, refl, sym, ap, ◌∙◌, true, false, Bool, Bool-cases, inl, inr,
  Option, none, some, List, [], ◌∷◌, arith, length, leb, add_u64,
}
use blu_gold.Crypto.Interface.{Primitives}
use blu_gold.Chain.Tx.{Hash}
use blu_gold.Chain.Block.{Block, block_hash}
use blu_gold.Node.Data.{Entry, Node}
use blu_gold.Node.Sync.{
  active_entry, batch_from, locator_start, blocks_after_locator, sync_tx_budget,
}

-- A round of the loop of `blocksAfterLocatorLocked`, by its three ends.
pub batch_above :
    (count txs h top : ℕ) (n : Node) → leb h top ≡ false → batch_from (suc count) txs h top n ≡ []
unfolding batch_from
batch_above count txs h top n above = ground (arith, above)

pub batch_full :
    (count txs h top : ℕ) (n : Node) (e : Entry)
    → leb h top ≡ true
    → active_entry h n ≡ some e
    → leb sync_tx_budget (txs + length e.block.txs) ≡ true
    → batch_from (suc count) txs h top n ≡ e.block ∷ []
unfolding batch_from
batch_full count txs h top n e below at full = ground (arith, below, at, full)

pub batch_more :
    (count txs h top : ℕ) (n : Node) (e : Entry)
    → leb h top ≡ true
    → active_entry h n ≡ some e
    → leb sync_tx_budget (txs + length e.block.txs) ≡ false
    → batch_from (suc count) txs h top n
      ≡ e.block ∷ batch_from count (txs + length e.block.txs) (add_u64 h 1) top n
unfolding batch_from
batch_more count txs h top n e below at left = ground (arith, below, at, left)

module _ ⦃c : Primitives⦄ where
  -- The index of the active chain: an entry has its height, and the next one is its child.
  pub record Indexed (n : Node) : Type 0 where
    pub at_height : (h : ℕ) (e : Entry) → active_entry h n ≡ some e → e.block.height ≡ h
    pub linked :
        (h : ℕ) (e d : Entry)
        → active_entry h n ≡ some e
        → active_entry (add_u64 h 1) n ≡ some d
        → d.block.prev_hash ≡ block_hash e.block

  -- A run of blocks from height `h`: every block is the child of the one in front.
  abbrev pub Run : ℕ → List Block → Type 0
  Run h [] = Unit {0}
  Run h (b ∷ []) = b.height ≡ h
  Run h (b ∷ d ∷ bs) = (b.height ≡ h) × ((d.prev_hash ≡ block_hash b) × Run (add_u64 h 1) (d ∷ bs))

  -- The transactions stay below the budget until the last block.
  abbrev pub WithinBudget : ℕ → List Block → Type 0
  WithinBudget txs [] = Unit {0}
  WithinBudget txs (b ∷ []) = Unit {0}
  WithinBudget txs (b ∷ d ∷ bs) =
      (txs + length b.txs < sync_tx_budget) × WithinBudget (txs + length b.txs) (d ∷ bs)

  -- What a batch is, with its first block tied to the index.
  abbrev Batch : ℕ → ℕ → ℕ → Node → List Block → Type 0
  Batch count txs h n [] = Unit {0}
  Batch count txs h n (b ∷ bs) =
      (length (b ∷ bs) ≤ count)
      × (Run h (b ∷ bs)
          × (WithinBudget txs (b ∷ bs)
              × ((e : Entry) × (active_entry h n ≡ some e) × (e.block ≡ b))))

  cons-Batch :
      (count txs h : ℕ) (n : Node) (e : Entry) (bs : List Block)
      → Indexed n
      → active_entry h n ≡ some e
      → txs + length e.block.txs < sync_tx_budget
      → Batch count (txs + length e.block.txs) (add_u64 h 1) n bs
      → Batch (suc count) txs h n (e.block ∷ bs)
  cons-Batch count txs h n e [] ix a room rest =
      (omega arith, (ix.at_height h e a, (tt, (e, a, refl))))
  cons-Batch count txs h n e (d ∷ bs) ix a room (short, (run, (within, (x, at, is)))) = (
    omega arith,
    (
      (ix.at_height h e a, (ap (λ (b : Block). b.prev_hash) (sym is) ∙ ix.linked h e x a at, run)),
      ((room, within), (e, a, refl)),
    ),
  )

  one-Batch :
      (count txs h : ℕ) (n : Node) (e : Entry)
      → Indexed n
      → active_entry h n ≡ some e
      → Batch (suc count) txs h n (e.block ∷ [])
  one-Batch count txs h n e ix a = (omega arith, (ix.at_height h e a, (tt, (e, a, refl))))

  -- The round at an entry of the active chain.
  round-Batch :
      (count txs h top : ℕ) (n : Node) (e : Entry)
      → Indexed n
      → active_entry h n ≡ some e
      → ((t : ℕ) → Batch count t (add_u64 h 1) n (batch_from count t (add_u64 h 1) top n))
      → Batch (suc count) txs h n (
          e.block ∷ elim (leb sync_tx_budget (txs + length e.block.txs)) [
            | true ↦ []
            | false ↦ batch_from count (txs + length e.block.txs) (add_u64 h 1) top n
          ])
  round-Batch count txs h top n e ix a rest =
      elim (Bool-cases (leb sync_tx_budget (txs + length e.block.txs))) [
        | inl full ↦ rw full (one-Batch count txs h n e ix a)
        | inr room ↦
            rw room
              (cons-Batch count txs h n e _ ix a (ground arith) (rest (txs + length e.block.txs)))
      ]

  entry-Batch :
      (count txs h top : ℕ) (n : Node) (o : Option Entry)
      → Indexed n
      → active_entry h n ≡ o
      → ((t : ℕ) → Batch count t (add_u64 h 1) n (batch_from count t (add_u64 h 1) top n))
      → Batch (suc count) txs h n (elim o [
        | none ↦ []
        | some e ↦ e.block ∷ elim (leb sync_tx_budget (txs + length e.block.txs)) [
          | true ↦ []
          | false ↦ batch_from count (txs + length e.block.txs) (add_u64 h 1) top n
        ]
      ])
  entry-Batch count txs h top n none ix a rest = tt
  entry-Batch count txs h top n (some e) ix a rest = round-Batch count txs h top n e ix a rest

  guard-Batch :
      (count txs h : ℕ) (n : Node) (below : Bool) (bs : List Block)
      → Batch count txs h n bs
      → Batch count txs h n (elim below [ false ↦ [] | true ↦ bs ])
  guard-Batch count txs h n true bs b = b
  guard-Batch count txs h n false bs b = tt

  batch_from-Batch :
      (count txs h top : ℕ) (n : Node)
      → Indexed n
      → Batch count txs h n (batch_from count txs h top n)
  unfolding batch_from
  batch_from-Batch zero txs h top n ix = tt
  batch_from-Batch (suc count) txs h top n ix = guard-Batch (suc count) txs h n (leb h top) _ (
      entry-Batch count txs h top n (active_entry h n) ix refl
        (λ t. batch_from-Batch count t (add_u64 h 1) top n ix))

  -- What a batch promises to the peer.
  abbrev pub Answers : ℕ → ℕ → List Block → Type 0
  Answers count h bs = (length bs ≤ count) × (Run h bs × WithinBudget 0 bs)

  Batch→Answers :
      (count h : ℕ) (n : Node) (bs : List Block) → Batch count 0 h n bs → Answers count h bs
  Batch→Answers count h n [] b = (omega arith, (tt, tt))
  Batch→Answers count h n (x ∷ bs) (short, (run, (within, _))) = (short, (run, within))

  -- Where the index of the active chain is right: `blocksAfterLocatorLocked` returns at most
  -- `count` blocks, from the height behind the locator's newest active entry, each the child of the
  -- one in front, and their transactions stay below the budget until the last block.
  pub blocks_after_locator-Answers :
      (locator : List Hash) (count : ℕ) (n : Node)
      → Indexed n
      → Answers count (locator_start locator n) (blocks_after_locator locator count n)
  unfolding blocks_after_locator
  blocks_after_locator-Answers locator count n ix = with_tip n.tip
    where
      with_tip :
          (o : Option Entry)
          → Answers count (locator_start locator n) (elim o [
            | none ↦ []
            | some tip ↦ batch_from count 0 (locator_start locator n) tip.block.height n
          ])
      with_tip none = (omega arith, (tt, tt))
      with_tip (some tip) =
          Batch→Answers count _ n _
            (batch_from-Batch count 0 (locator_start locator n) tip.block.height n ix)
