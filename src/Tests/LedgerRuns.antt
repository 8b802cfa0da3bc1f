-- ===== src/Tests/LedgerRuns.antt =====
-- Runs of a node from its first start on, with one block mined.
use blu_gold.Base.{inr, ℕ, ◌≡◌, refl, true, false, some, [], All, arith, ok}
use blu_gold.Base.Dict.{lookup}
use blu_gold.Base.Int.{pos}
use blu_gold.Chain.Params.{default_params}
use blu_gold.Chain.Block.{Block, block_hash, genesis}
use blu_gold.State.Total.{total}
use blu_gold.Node.Data.{Entry, Node}
use blu_gold.Node.Tree.{reject_subtree}
use blu_gold.Node.Tree.Removal.{Removes, reject_subtree-Removes}
use blu_gold.Node.Switch.Money.{reward_of, rewards, BlockInRange}
use blu_gold.Node.Insert.{insert_block}
use blu_gold.Node.Transactions.{no_tip, candidate_panics, built, build_candidate}
use blu_gold.Node.Wallet.{submit_solution}
use blu_gold.Node.Sync.{blocks_after_locator, tip_locator}
use blu_gold.Node.Boot.{
  boot, empty_node, finish_boot, store_genesis, load_next, load_all, load_store,
}
use blu_gold.Node.Boot.Fresh.{genesis_entry, boot_fresh}
use blu_gold.Node.Run.{mined, Reached, booted, step}
use blu_gold.Node.Ledger.Paths.{path_in}
use blu_gold.Node.Ledger.Follows.{Follows}
use blu_gold.Node.Ledger.Inserting.{NoZeroHash, insert_block-Follows}
use blu_gold.Node.Ledger.Running.{Reached-Follows}
use blu_gold.Node.Ledger.Supply.{Reached-supply}
use blu_gold.Node.Ledger.Answering.{ServesLocator, Reached-ServesLocator}
use blu_gold.Node.Mined.Accepted.{Extends}
use blu_gold.Node.Mined.Tip.{IsNew, with_nonces, submit_solution-Extends}
use blu_gold.Tests.Sample.{toy, running, bob}

abbrev clock : ℕ
clock = 1_800_000_000_000

unfoldable started_node : Node
started_node = (boot default_params true (pos clock) true []).1

-- The block that the node would have mined, for Bob.
unfoldable candidate : Block
candidate = elim (build_candidate bob (pos clock) started_node) [
  | no_tip ↦ genesis default_params
  | candidate_panics ↦ genesis default_params
  | built b ↦ b
]

unfoldable mined_node : Node
mined_node = (submit_solution (pos clock) candidate started_node).1

abbrev mined_entry : Entry
mined_entry = record { block = candidate; hash = block_hash candidate; work = 1 }

unfoldable all_running : ℕ
unfolding running boot empty_node finish_boot store_genesis load_next load_all load_store
    started_node candidate mined_node reward_of
all_running = 0

starts : boot default_params true (pos clock) true [] ≡ (ok tt, started_node)
unfolding all_running
starts = refl

taken : (submit_solution (pos clock) candidate started_node).0 ≡ ok tt
unfolding all_running
taken = refl

new_tip : mined_node.tip ≡ some mined_entry
unfolding all_running
new_tip = refl

listed : lookup mined_entry.hash mined_node.blocks ≡ some mined_entry
unfolding all_running
listed = refl

toy-NoZeroHash : NoZeroHash
unfolding block_hash running
toy-NoZeroHash b q = absurd (cc (q))

once_started : Reached default_params [] started_node
once_started = booted true (pos clock) true started_node starts

after_mining : Reached default_params [] mined_node
unfolding mined_node
after_mining = step started_node mined_node once_started (mined (pos clock) candidate)

boot_fresh_example :
    ((boot default_params true (pos clock) true []).0 ≡ ok tt)
    × ((boot default_params true (pos clock) true []).1.tip ≡ some (genesis_entry default_params))
    × ((boot default_params true (pos clock) true []).1.state ≡ [])
boot_fresh_example =
    boot_fresh default_params true (pos clock) (toy-NoZeroHash (genesis default_params))

Reached-Follows_example : Follows mined_node
Reached-Follows_example = Reached-Follows toy-NoZeroHash default_params [] tt after_mining

insert_block-Follows_example :
    Follows (insert_block (pos clock) false true [] candidate started_node).1
insert_block-Follows_example =
    insert_block-Follows toy-NoZeroHash (pos clock) false true [] candidate started_node
      (Reached-Follows toy-NoZeroHash default_params [] tt once_started)

reject_subtree-Removes_example :
    Removes mined_entry mined_node.blocks (reject_subtree mined_entry mined_node).blocks
reject_subtree-Removes_example =
    reject_subtree-Removes mined_entry mined_node
      (Reached-Follows toy-NoZeroHash default_params [] tt after_mining).tree.unique
      (Reached-Follows toy-NoZeroHash default_params [] tt after_mining).tree.keyed listed

in_range : All BlockInRange (path_in mined_node.blocks mined_entry)
unfolding all_running
in_range = ((record { amount_fits = omega arith; fee_fits = omega arith }, tt), (tt, tt))

paid_once : rewards mined_node.params (path_in mined_node.blocks mined_entry) ≡ 100_000_000
unfolding all_running
paid_once = refl

halves : mined_node.params.halving_interval ≡ default_params.halving_interval
unfolding all_running
halves = refl

Reached-supply_example :
    total mined_node.state ≡ rewards mined_node.params (path_in mined_node.blocks mined_entry)
Reached-supply_example =
    Reached-supply default_params [] mined_node mined_entry toy-NoZeroHash tt after_mining new_tip
      (omega (arith, halves)) in_range (omega (arith, paid_once))

low_tip : mined_entry.block.height ≡ 1
unfolding all_running
low_tip = refl

Reached-ServesLocator_example :
    ServesLocator mined_node.blocks mined_entry
      (tip_locator started_node)
      500
      (blocks_after_locator (tip_locator started_node) 500 mined_node)
Reached-ServesLocator_example =
    Reached-ServesLocator default_params [] mined_node mined_entry (tip_locator started_node) 500
      toy-NoZeroHash tt after_mining new_tip (omega (arith, low_tip))

fresh_candidate : IsNew (with_nonces candidate 7 9) started_node
unfolding all_running block_hash
fresh_candidate = record { unlisted = refl; accepted = refl; unwanted = refl }

started : started_node.tip ≡ some (genesis_entry default_params)
unfolding all_running
started = refl

submit_solution-Extends_example :
    Extends
      (genesis_entry default_params)
      (with_nonces candidate 7 9)
      (submit_solution (pos clock) (with_nonces candidate 7 9) started_node)
unfolding all_running
submit_solution-Extends_example =
    submit_solution-Extends bob (pos clock) (pos clock) 7 9 999 started_node
      (genesis_entry default_params) 100_000_000 [] candidate
      (Reached-Follows toy-NoZeroHash default_params [] tt once_started) refl started
      (inr (omega arith), tt) (omega arith) refl refl refl refl tt (omega arith) refl (omega arith)
      refl refl refl fresh_candidate
