-- ===== src/Node/Insert/Fuel.antt =====
-- The fuel of `insert_block` is enough: more of it gives the same result.
use blu_gold.Base.{
  ℕ, zero, suc, ◌+◌, ◌≤◌, ◌<◌, ◌≡◌, refl, arith, Bytes, Bool, true, false, List, [], ◌∷◌, ◌++◌,
  Option, none, some, Result, ok, err, length, length-append,
}
use mathlib.Core.List.{foldl}
use blu_gold.Base.Int.{ℤ}
use blu_gold.Base.Dict.{Dict, lookup, insert, erase}
use blu_gold.Crypto.Interface.{Primitives}
use blu_gold.Chain.Tx.{Hash}
use blu_gold.Chain.Block.{Block, block_hash}
use blu_gold.Node.Data.{Entry, Node, NodeError}
use blu_gold.Node.Switch.Orphans.{select_tip-orphans}
use blu_gold.Node.Insert.{
  orphan_count, waiting, add_orphan, check_block, place, after_promotion, insert_genesis,
  promote_orphans, accept_block, insert_checked, insert_below, insert_fuel, insert_block,
}

orphan_count-erase :
    (h : Hash) (d : Dict (List Block))
    → orphan_count (erase h d) + length (waiting h d) ≤ orphan_count d
unfolding orphan_count erase lookup
orphan_count-erase h [] = omega arith
orphan_count-erase h ((k, l) ∷ d) = ground (arith, orphan_count-erase h d)

orphan_count-insert :
    (h : Hash) (l : List Block) (d : Dict (List Block))
    → orphan_count (insert h l d) + length (waiting h d) ≡ orphan_count d + length l
unfolding orphan_count insert lookup
orphan_count-insert h l [] = omega arith
orphan_count-insert h l ((k, w) ∷ d) = ground (arith, orphan_count-insert h l d)

-- The orphans of a node, counted.
abbrev count : Node → ℕ
count n = orphan_count n.orphans

-- A call that inserts a block, and what it does to the orphans.
abbrev Insertion : Type 0
Insertion = Block → Node → Result NodeError (Unit {0}) × Node

abbrev AddsOne : Insertion → Type 0
AddsOne again = (b : Block) (m : Node) → count (again b m).1 ≤ suc (count m)

-- The same call wherever fewer than `k` orphans wait.
abbrev Agree : ℕ → Insertion → Insertion → Type 0
Agree k f g = (b : Block) (m : Node) → count m < k → f b m ≡ g b m

foldl-count :
    (f : Insertion) (bs : List Block) (m : Node)
    → AddsOne f
    → count (foldl (λ m b. (f b m).1) m bs) ≤ count m + length bs
foldl-count f [] m h = omega arith
foldl-count f (b ∷ bs) m h = omega (arith, foldl-count f bs (f b m).1 h, h b m)

foldl-Agree :
    (k : ℕ) (f g : Insertion) (bs : List Block) (m : Node)
    → AddsOne g
    → Agree k f g
    → count m + length bs ≤ k
    → foldl (λ m b. (f b m).1) m bs ≡ foldl (λ m b. (g b m).1) m bs
foldl-Agree k f g [] m one h room = refl
foldl-Agree k f g (b ∷ bs) m one h room =
    rw (h b m (omega arith)) (foldl-Agree k f g bs (g b m).1 one h (omega (arith, one b m)))

module _ ⦃c : Primitives⦄ where
  promote-count :
      (f : Insertion) (h : Hash) (n : Node) → AddsOne f → count (promote_orphans f h n) ≤ count n
  unfolding promote_orphans
  promote-count f h n one = omega (
    arith,
    orphan_count-erase h n.orphans,
    foldl-count f (waiting h n.orphans) (record n { orphans = erase h n.orphans }) one,
  )

  promote-Agree :
      (f g : Insertion) (h : Hash) (n : Node)
      → AddsOne g
      → Agree (count n) f g
      → promote_orphans f h n ≡ promote_orphans g h n
  unfolding promote_orphans
  promote-Agree f g h n one same =
      foldl-Agree (count n) f g (waiting h n.orphans) _ one same (orphan_count-erase h n.orphans)

  after_promotion-count :
      (announce : Bool) (except_peer : Bytes) (b : Block) (n : Node)
      → count (after_promotion announce except_peer b n) ≡ count n
  unfolding after_promotion
  after_promotion-count announce except_peer b n = grind (arith, select_tip-orphans)

  place-count :
      (from_disk : Bool) (e : Entry) (b : Block) (n : Node)
      → count (place from_disk e b n) ≡ count n
  unfolding place
  place-count from_disk e b n = ground arith

  add_orphan-count : (b : Block) (n : Node) → count (add_orphan b n) ≤ suc (count n)
  unfolding add_orphan
  add_orphan-count b n = ground (
    arith,
    orphan_count-insert b.prev_hash (waiting b.prev_hash n.orphans ++ (b ∷ [])) n.orphans,
    length-append (waiting b.prev_hash n.orphans) (b ∷ []),
  )

  accept-count :
      (f : Insertion) (from_disk announce : Bool) (except_peer : Bytes) (e : Entry) (b : Block)
      (n : Node)
      → AddsOne f
      → count (accept_block f from_disk announce except_peer e b n) ≤ count n
  unfolding accept_block
  accept-count f from_disk announce except_peer e b n one = omega (
    arith,
    after_promotion-count announce except_peer b _,
    promote-count f (block_hash b) (place from_disk e b n) one,
    place-count from_disk e b n,
  )

  accept-Agree :
      (f g : Insertion) (from_disk announce : Bool) (except_peer : Bytes) (e : Entry) (b : Block)
      (n : Node)
      → AddsOne g
      → Agree (count n) f g
      → accept_block f from_disk announce except_peer e b n
        ≡ accept_block g from_disk announce except_peer e b n
  unfolding accept_block
  accept-Agree f g from_disk announce except_peer e b n one same =
      rw
        (promote-Agree f g (block_hash b) (place from_disk e b n) one
          (rw (place-count from_disk e b n) same))
        refl

  module _ (from_disk announce : Bool) (except_peer : Bytes) (b : Block) (n : Node) where
    checked-count :
        (f : Insertion) (e : Entry) (r : Result NodeError (Unit {0}))
        → AddsOne f
        → count (insert_checked f from_disk announce except_peer b n e r).1 ≤ suc (count n)
    unfolding insert_checked
    checked-count f e (err x) one = omega arith
    checked-count f e (ok _) one =
        omega (arith, accept-count f from_disk announce except_peer e b n one)

    below-count :
        (f : Insertion) (now : ℤ) (o : Option Entry)
        → AddsOne f
        → count (insert_below f now from_disk announce except_peer b n o).1 ≤ suc (count n)
    unfolding insert_below
    below-count f now none one = add_orphan-count b n
    below-count f now (some e) one = checked-count f e (check_block now e b n) one

    checked-Agree :
        (f g : Insertion) (e : Entry) (r : Result NodeError (Unit {0}))
        → AddsOne g
        → Agree (count n) f g
        → insert_checked f from_disk announce except_peer b n e r
          ≡ insert_checked g from_disk announce except_peer b n e r
    unfolding insert_checked
    checked-Agree f g e (err x) one same = refl
    checked-Agree f g e (ok _) one same =
        rw (accept-Agree f g from_disk announce except_peer e b n one same) refl

    below-Agree :
        (f g : Insertion) (now : ℤ) (o : Option Entry)
        → AddsOne g
        → Agree (count n) f g
        → insert_below f now from_disk announce except_peer b n o
          ≡ insert_below g now from_disk announce except_peer b n o
    unfolding insert_below
    below-Agree f g now none one same = refl
    below-Agree f g now (some e) one same = checked-Agree f g e (check_block now e b n) one same

  -- The insertion of one block adds at most one orphan, whatever the fuel.
  insert_fuel-count :
      (fuel : ℕ) (now : ℤ) (from_disk announce : Bool) (except_peer : Bytes) (b : Block) (n : Node)
      → count (insert_fuel fuel now from_disk announce except_peer b n).1 ≤ suc (count n)
  unfolding insert_fuel insert_genesis
  insert_fuel-count zero now from_disk announce except_peer b n = omega arith
  insert_fuel-count (suc fuel) now from_disk announce except_peer b n = ground (
    arith,
    below-count from_disk announce except_peer b n (insert_fuel fuel now false true []) now
        (lookup b.prev_hash n.blocks) (λ b m. insert_fuel-count fuel now false true [] b m),
  )

  insert_fuel-Agree :
      (f g : ℕ) (now : ℤ) (from_disk announce : Bool) (except_peer : Bytes) (b : Block) (n : Node)
      → count n < f
      → count n < g
      → insert_fuel f now from_disk announce except_peer b n
        ≡ insert_fuel g now from_disk announce except_peer b n
  unfolding insert_fuel
  insert_fuel-Agree zero g now from_disk announce except_peer b n hf hg = absurd (omega arith)
  insert_fuel-Agree (suc f) zero now from_disk announce except_peer b n hf hg = absurd (omega arith)
  insert_fuel-Agree (suc f) (suc g) now from_disk announce except_peer b n hf hg =
      rw
        (below-Agree from_disk announce except_peer b n (insert_fuel f now false true [])
          (insert_fuel g now false true []) now (lookup b.prev_hash n.blocks)
          (λ b m. insert_fuel-count g now false true [] b m)
          (λ b m h. insert_fuel-Agree f g now false true [] b m (omega arith) (omega arith)))
        refl

  -- Any fuel above the number of the orphans that wait gives what `insert_block` gives: the
  -- recursion of `insertBlockLocked` through the orphans ends, and no call in it is cut short.
  pub insert_fuel-enough :
      (fuel : ℕ) (now : ℤ) (from_disk announce : Bool) (except_peer : Bytes) (b : Block) (n : Node)
      → orphan_count n.orphans < fuel
      → insert_fuel fuel now from_disk announce except_peer b n
        ≡ insert_block now from_disk announce except_peer b n
  unfolding insert_block
  insert_fuel-enough fuel now from_disk announce except_peer b n h =
      insert_fuel-Agree fuel _ now from_disk announce except_peer b n h (omega arith)
