-- ===== src/Node/Mined/Accepted.antt =====
-- A block that is submitted on the tip and passes the checks becomes the tip.
use blu_gold.Base.{
  ◌≡◌, refl, inl, inr, true, false, Bool-cases, some, none, List, [], arith, ok, All, bytes_eq,
  Result, ◌==◌, Bool,
}
use blu_gold.Base.Int.{ℤ}
use blu_gold.Base.Dict.{Dict, lookup, insert}
use blu_gold.Crypto.Interface.{Primitives}
use blu_gold.Chain.Block.{Block, block_hash}
use blu_gold.State.Monad.{done}
use blu_gold.State.{apply_block}
use blu_gold.Node.Data.{Entry, Node, NodeError, is_rejected, Event}
use blu_gold.Node.Insert.{
  waiting, check_block, entry_below, place, after_promotion, promote_orphans, accept_block,
  insert_checked, insert_below, insert_fuel, insert_block, orphan_count,
}
use blu_gold.Node.Switch.{select_tip}
use blu_gold.Node.Mined.Chosen.{Lighter, best_from-insert, select_tip-extends}

module _ ⦃c : Primitives⦄ where
  -- The block is accepted, and is the new tip.
  abbrev pub Extends : Entry → Block → Result NodeError (Unit {0}) × Node → Type 0
  Extends tip b (r, m) = (r ≡ ok tt) × (m.tip ≡ some (entry_below tip b))

module _ ⦃c : Primitives⦄ (n : Node) (tip : Entry) (b : Block) (up : n.booting ≡ false)
    (has : n.tip ≡ some tip) (on : b.prev_hash ≡ tip.hash)
    (fresh : is_rejected (block_hash b) n ≡ false)
    (other : bytes_eq tip.hash (block_hash b) ≡ false)
    (heavier : All (Lighter n (entry_below tip b)) n.blocks)
    (applies : (apply_block b n.params n.state).0 ≡ done tt) where
  -- The node with the block in its tree, whatever orphans wait, and whomever it talks to.
  chosen_tip :
      (networked booting : Bool) (orphans : Dict (List Block)) (log : List Event)
      → (select_tip (record n {
        blocks = insert (block_hash b) (entry_below tip b) n.blocks;
        networked = networked;
        booting = booting;
        orphans = orphans;
        log = log;
      })).tip
        ≡ some (entry_below tip b)
  chosen_tip networked booting orphans log =
      let m = record n {
        blocks = insert (block_hash b) (entry_below tip b) n.blocks;
        networked = networked;
        booting = booting;
        orphans = orphans;
        log = log;
      } in
      select_tip-extends m tip (entry_below tip b) has on applies
        (best_from-insert m (entry_below tip b) fresh none (block_hash b) n.blocks tt heavier) other

  accept-Extends :
      (again : Block → Node → Result NodeError (Unit {0}) × Node)
      → waiting (block_hash b) n.orphans ≡ []
      → (accept_block again false true [] tip b n).tip ≡ some (entry_below tip b)
  unfolding accept_block promote_orphans place after_promotion
  accept-Extends again none_wait = elim (Bool-cases n.networked) [
    | inl on_net ↦ rw (none_wait, up, on_net) (chosen_tip _ _ _ _)
    | inr alone ↦ rw (none_wait, up, alone) (chosen_tip _ _ _ _)
  ]

  insert_block-accepts :
      (now : ℤ)
      → lookup (block_hash b) n.blocks ≡ none
      → b.height == 0 ≡ false
      → lookup b.prev_hash n.blocks ≡ some tip
      → check_block now tip b n ≡ ok tt
      → insert_block now false true [] b n ≡ (
        ok tt,
        accept_block (insert_fuel (orphan_count n.orphans) now false true []) false true [] tip b n,
      )
  unfolding insert_block insert_fuel insert_below insert_checked
  insert_block-accepts now new high below good = ground (arith, new, fresh, high, below, good)

  pub insert_block-Extends :
      (now : ℤ)
      → lookup (block_hash b) n.blocks ≡ none
      → b.height == 0 ≡ false
      → lookup b.prev_hash n.blocks ≡ some tip
      → waiting (block_hash b) n.orphans ≡ []
      → check_block now tip b n ≡ ok tt
      → Extends tip b (insert_block now false true [] b n)
  insert_block-Extends now new high below none_wait good =
      rw (insert_block-accepts now new high below good) (refl, accept-Extends _ none_wait)
