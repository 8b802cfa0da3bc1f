-- ===== src/Node/Ledger/Answering.antt =====
-- The answer of a node to a request for blocks, against its active chain.
use blu_gold.Base.{
  ℕ, zero, suc, ◌+◌, ◌≤◌, ◌<◌, ◌≡◌, refl, sym, ap, ◌∙◌, ◌⊎◌, inl, inr, true, false, Bool,
  Bool-cases, Option, Option-cases, none, some, List, [], ◌∷◌, arith, add_u64, u64_mod, length, leb,
  if◌then◌else◌, bytes_eq, bytes_eq→eq, bytes_eq_refl,
}
use blu_gold.Base.Dict.{Dict, lookup}
use blu_gold.Crypto.Interface.{Primitives}
use blu_gold.Chain.Params.{Params}
use blu_gold.Chain.Tx.{Hash}
use blu_gold.Chain.Block.{Block}
use blu_gold.Node.Data.{Entry, Node}
use blu_gold.Node.Sync.{
  active_entry, is_active, locator_start, batch_from, blocks_after_locator, sync_tx_budget,
}
use blu_gold.Node.Sync.Batch.{
  batch_above, batch_full, batch_more, Answers, blocks_after_locator-Answers,
}
use blu_gold.Node.Run.{Reached}
use blu_gold.Node.Ledger.Inserting.{NoZeroHash}
use blu_gold.Node.Ledger.Booting.{FromGenesis}
use blu_gold.Node.Ledger.Running.{Reached-Follows}
use blu_gold.Node.Ledger.Follows.{Active, Follows}
use blu_gold.Node.Ledger.Listing.{OnChain, index-listed, listed_below}
use blu_gold.Node.Ledger.Index.{At-height, Follows-Indexed}

-- One above the first hash of the locator that is on the chain; height 1 where none is.
abbrev pub StartsAt : Dict Entry → Entry → List Hash → ℕ → Type 0
StartsAt blocks tip [] start = start ≡ 1
StartsAt blocks tip (g ∷ locator) start =
    ((h : ℕ) × OnChain blocks tip h g × (start ≡ suc h))
    ⊎ ((¬ ((h : ℕ) × OnChain blocks tip h g)) × StartsAt blocks tip locator start)

-- The blocks of the chain from height `h` on.
abbrev pub Serves : Dict Entry → Entry → ℕ → List Block → Type 0
Serves blocks tip h [] = Unit {0}
Serves blocks tip h (b ∷ bs) =
    ((e : Entry) × OnChain blocks tip h e.hash × (lookup e.hash blocks ≡ some e) × (e.block ≡ b))
    × Serves blocks tip (suc h) bs

abbrev pub tx_count : List Block → ℕ
tx_count [] = 0
tx_count (b ∷ bs) = length b.txs + tx_count bs

-- Why there are no more blocks: as many as asked for, the end of the chain, or the budget.
abbrev pub Stops : ℕ → ℕ → ℕ → ℕ → List Block → Type 0
Stops count txs h top bs =
    (length bs ≡ count) ⊎ ((top < h + length bs) ⊎ (sync_tx_budget ≤ txs + tx_count bs))

module _ ⦃c : Primitives⦄ where
  module _ (n : Node) (tip : Entry) (f : Follows n) (is : n.tip ≡ some tip)
      (room : suc tip.block.height < u64_mod) where
    a : Active n.params n.blocks n.state n.chain_heights tip
    a = f.current tip is

    -- A hash of the chain stands at the height of its entry, at most the tip's.
    OnChain-height :
        (h : ℕ) (g : Hash) (e : Entry)
        → OnChain n.blocks tip h g
        → lookup g n.blocks ≡ some e
        → (e.block.height ≡ h) × (h ≤ tip.block.height)
    OnChain-height h g e on at =
        At-height f.tree (suc tip.block.height) tip.hash tip e h a.listed (omega arith) (g, on, at)

    active-OnChain : (h : ℕ) (g : Hash) → is_active g h n ≡ true → OnChain n.blocks tip h g
    unfolding is_active
    active-OnChain h g q = sym (a.indexed h) ∙ named (n.chain_heights h) q
      where
        named :
            (o : Option Hash)
            → elim o as (λ _. Bool) [ none ↦ false | some i ↦ bytes_eq i g ] ≡ true
            → o ≡ some g
        named none r = absurd (cc (r))
        named (some i) r = ap some (bytes_eq→eq i g r)

    OnChain-active : (h : ℕ) (g : Hash) → OnChain n.blocks tip h g → is_active g h n ≡ true
    unfolding is_active
    OnChain-active h g on = rw (is_active, a.indexed h ∙ on) (bytes_eq_refl g)

    -- One round of the scan of the locator; `rest` is what the others give.
    scan-StartsAt :
        (g : Hash) (locator : List Hash) (rest : ℕ)
        → StartsAt n.blocks tip locator rest
        → StartsAt n.blocks tip (g ∷ locator) (elim (lookup g n.blocks) [
          | none ↦ rest
          | some e ↦ if is_active g e.block.height n then add_u64 e.block.height 1 else rest
        ])
    scan-StartsAt g locator rest r = elim (Option-cases (lookup g n.blocks)) [
      | inl absent ↦ rw absent (inr (gone absent, r))
      | inr (e, at) ↦ elim (Bool-cases (is_active g e.block.height n)) [
        | inl on ↦
            let chained = active-OnChain e.block.height g on in
            let low = (OnChain-height e.block.height g e chained at).1 in
            let next : add_u64 e.block.height 1 ≡ suc e.block.height = omega (arith, low) in
            rw (at, on) (inl (e.block.height, chained, next))
        | inr off ↦ rw (at, off) (inr (elsewhere e at off, r))
      ]
    ]
      where
        gone : lookup g n.blocks ≡ none → ¬ ((h : ℕ) × OnChain n.blocks tip h g)
        gone absent (h, on) =
            let (x, l) =
              index-listed f.tree (suc tip.block.height) tip.hash g tip h a.listed (omega arith)
                on in
            cc (absent, l)

        elsewhere :
            (e : Entry)
            → lookup g n.blocks ≡ some e
            → is_active g e.block.height n ≡ false
            → ¬ ((h : ℕ) × OnChain n.blocks tip h g)
        elsewhere e at off (h, on) =
            let level = (OnChain-height h g e on at).0 in
            let here = OnChain-active h g on in cc (ap (λ k. is_active g k n) level, here, off)

    start-StartsAt : (locator : List Hash) → StartsAt n.blocks tip locator (locator_start locator n)
    unfolding locator_start
    start-StartsAt [] = refl
    start-StartsAt (g ∷ locator) =
        scan-StartsAt g locator (locator_start locator n) (start-StartsAt locator)

    -- The blocks of an answer, and why there are no more.
    abbrev Fills : ℕ → ℕ → ℕ → List Block → Type 0
    Fills count txs h bs = Serves n.blocks tip h bs × Stops count txs h tip.block.height bs

    active_below :
        (h : ℕ)
        → h ≤ tip.block.height
        → (e : Entry) × (active_entry h n ≡ some e)
          × OnChain n.blocks tip h e.hash
          × (lookup e.hash n.blocks ≡ some e)
    unfolding active_entry
    active_below h low =
        let (e, on, l) =
          listed_below f.tree (suc tip.block.height) tip.hash tip h a.listed (omega arith) low in
        (e, rw (active_entry, a.indexed h ∙ on) l, on, l)

    more :
        (count txs h : ℕ) (e : Entry) (bs : List Block)
        → OnChain n.blocks tip h e.hash
        → lookup e.hash n.blocks ≡ some e
        → Fills count (txs + length e.block.txs) (suc h) bs
        → Fills (suc count) txs h (e.block ∷ bs)
    more count txs h e bs on l (serves, inl all) =
        (((e, on, l, refl), serves), inl (omega (arith, all)))
    more count txs h e bs on l (serves, inr (inl top)) =
        (((e, on, l, refl), serves), inr (inl (omega (arith, top))))
    more count txs h e bs on l (serves, inr (inr full)) =
        (((e, on, l, refl), serves), inr (inr (omega (arith, full))))

    batch_from-Fills :
        (count txs h : ℕ) → Fills count txs h (batch_from count txs h tip.block.height n)
    batch_from-Fills zero txs h = (unfold batch_from in tt, unfold batch_from in inl refl)
    batch_from-Fills (suc count) txs h = elim (Bool-cases (leb h tip.block.height)) [
      | inr above ↦
          rw (batch_above count txs h tip.block.height n above)
            (tt, inr (inl (ground (arith, above))))
      | inl below ↦
          let (e, at, on, l) = active_below h (ground (arith, below)) in
          elim (Bool-cases (leb sync_tx_budget (txs + length e.block.txs))) [
            | inl full ↦
                rw (batch_full count txs h tip.block.height n e below at full)
                  (((e, on, l, refl), tt), inr (inr (ground (arith, full))))
            | inr left ↦
                let next : add_u64 h 1 ≡ suc h = ground (arith, below, room) in
                rw (batch_more count txs h tip.block.height n e below at left, next)
                  (more count txs h e _ on l
                    (batch_from-Fills count (txs + length e.block.txs) (suc h)))
          ]
    ]

  -- What a node answers to a locator.
  pub record ServesLocator (blocks : Dict Entry) (tip : Entry) (locator : List Hash) (count : ℕ)
      (bs : List Block) : Type 0 where
    pub start : ℕ
    pub starts : StartsAt blocks tip locator start
    pub serves : Serves blocks tip start bs
    pub answers : Answers count start bs
    pub stops : Stops count 0 start tip.block.height bs

  -- In a node with a tip below the last height of all that `New` has returned, after any calls: the
  -- answer to a request for blocks starts one above the first hash of the locator that is on the
  -- tip's chain, or at height 1 where none is; its blocks are those of the chain from there on, one
  -- by one, each the child of the one in front; there are at most as many as asked for, and they
  -- stay below the budget of transactions until the last one; and it ends only with as many as
  -- asked for, at the tip, or with the budget used up. (No block has the hash of 32 zero bytes, and
  -- the store was empty or began with a block that stands on none.)
  pub Reached-ServesLocator :
      (p : Params) (blocks : List Block) (n : Node) (tip : Entry) (locator : List Hash) (count : ℕ)
      → NoZeroHash
      → FromGenesis blocks
      → Reached p blocks n
      → n.tip ≡ some tip
      → suc tip.block.height < u64_mod
      → ServesLocator n.blocks tip locator count (blocks_after_locator locator count n)
  unfolding blocks_after_locator
  Reached-ServesLocator p blocks n tip locator count real from r is room =
      let f = Reached-Follows real p blocks from r in
      let start = locator_start locator n in
      let whole : blocks_after_locator locator count n
          ≡ batch_from count 0 start tip.block.height n =
        ap
          (λ (o : Option Entry). elim o as (λ _. List Block) [
            | none ↦ []
            | some t ↦ batch_from count 0 start t.block.height n
          ])
          is in
      let (serves, stops) = batch_from-Fills n tip f is room count 0 start in
      record {
        start = start;
        starts = start-StartsAt n tip f is room locator;
        serves = rw whole serves;
        answers = blocks_after_locator-Answers locator count n (Follows-Indexed n tip f is room);
        stops = rw whole stops;
      }
