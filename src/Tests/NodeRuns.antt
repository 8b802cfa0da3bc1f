-- ===== src/Tests/NodeRuns.antt =====
-- Runs of the node: a mempool, a candidate, an orphan, and the choice of a tip.
use blu_gold.Base.{
  List, length, ◌≤◌, All, ◌+◌, ◌≡◌, refl, true, false, some, [], ◌∷◌, arith, if◌then◌else◌, ◌==◌,
  Bytes, replicate, length-replicate, err,
}
use blu_gold.Base.Int.{pos}
use blu_gold.Base.Dict.{Dict}
use blu_gold.Chain.Params.{default_params}
use blu_gold.Chain.Tx.{Tx, tx_hash, empty_coinbase}
use blu_gold.Chain.Block.{Block, block_hash}
use blu_gold.State.Monad.{done, failed, coinbase_invalid, bad_nonce}
use blu_gold.State.{apply_block}
use blu_gold.State.BlockMoney.{fees}
use blu_gold.Node.Data.{Entry, Node, mempool_full, tx_rejected, orphan, max_mempool}
use blu_gold.Node.Switch.{replay}
use blu_gold.Node.Switch.Money.{reward_of, rewards, Replays, BlockInRange, replay-Replays}
use blu_gold.Node.Switch.Best.{IsBest, best_from-IsBest}
use blu_gold.Node.Insert.{insert_fuel, insert_block}
use blu_gold.Node.Insert.Fuel.{insert_fuel-enough}
use blu_gold.Node.Transactions.{add_tx, candidate_txs, candidate_panics, built, build_candidate}
use blu_gold.Node.Transactions.Full.{add_tx_full_twice}
use blu_gold.Node.Transactions.Candidate.{build_candidate-applies}
use blu_gold.Tests.Sample.{
  genesis_entry, toy, running, bob, payment, rich_alice, block_one, started,
}

build_candidate-applies_example :
    (b : Block) × (txs : List Tx) × (build_candidate bob (pos 1_727_049_700_000) started ≡ built b)
    × (candidate_txs started ≡ some txs)
    × (length b.txs ≤ 1000)
    × ((apply_block b default_params rich_alice).0 ≡ (
        if 100_000_000 + fees txs == 0 then failed (coinbase_invalid empty_coinbase) else done tt))
unfolding running
build_candidate-applies_example =
    build_candidate-applies bob (pos 1_727_049_700_000) 999 started refl refl refl refl
      (
        (refl, record { amount_fits = omega arith; fee_fits = omega arith }),
        ((refl, record { amount_fits = omega arith; fee_fits = omega arith }), tt),
      )
      (omega arith)

-- With no room for a coinbase, and with no halving interval.
cut_panics :
    build_candidate bob
      (pos 0)
      (record started { params = record default_params { max_txs_per_block = pos 0 } })
    ≡ candidate_panics
unfolding running
cut_panics = refl

halving_panics :
    build_candidate bob
      (pos 0)
      (record started { params = record default_params { halving_interval = 0 } })
    ≡ candidate_panics
unfolding running
halving_panics = refl

insert_fuel-enough_example :
    insert_fuel 7 (pos 1_727_049_700_000) false true [] block_one started
    ≡ insert_block (pos 1_727_049_700_000) false true [] block_one started
unfolding running
insert_fuel-enough_example =
    insert_fuel-enough 7 (pos 1_727_049_700_000) false true [] block_one started (omega arith)

orphaned : (insert_block (pos 1_727_049_700_000) false true [] block_one started).0 ≡ err orphan
unfolding running
orphaned = refl

-- Two entries of the same work: the second has the smaller hash.
abbrev high : Entry
high = record { block = block_one; hash = 9 ∷ []; work = 5 }

abbrev low : Entry
low = record { block = block_one; hash = 3 ∷ []; work = 5 }

abbrev forked : Dict Entry
forked = (9 ∷ [], high) ∷ (3 ∷ [], low) ∷ []

-- More work, but rejected.
abbrev bad : Entry
bad = record { block = block_one; hash = 7 ∷ []; work = 9 }

abbrev wary : Node
wary = record started { rejected = (bad.hash, true) ∷ [] }

best_from-IsBest_example : IsBest wary ((7 ∷ [], bad) ∷ forked) (some low)
unfolding running
best_from-IsBest_example = best_from-IsBest wary ((7 ∷ [], bad) ∷ forked)

abbrev crowd : Dict Tx
crowd = replicate max_mempool (tx_hash payment, payment)

abbrev crowded : Node
crowded = record started { mempool_tx = crowd; pending = some rich_alice; pending_dirty = false }

add_tx_full_twice_example :
    ((add_tx payment [] crowded).0 ≡ err mempool_full)
    × ((add_tx payment [] (add_tx payment [] crowded).1).0 ≡ err (tx_rejected bad_nonce))
unfolding running
add_tx_full_twice_example =
    add_tx_full_twice payment [] crowded rich_alice refl refl refl refl refl
      (omega (arith, length-replicate {A = Bytes × Tx} max_mempool (tx_hash payment, payment)))
      (omega arith) (omega arith) (omega arith) (omega arith)

abbrev entry_one : Entry
entry_one = record { block = block_one; hash = block_hash block_one; work = 1 }

two_rewards : rewards default_params (genesis_entry ∷ entry_one ∷ []) ≡ 100_000_000
unfolding running reward_of
two_rewards = refl

in_range : All BlockInRange (genesis_entry ∷ entry_one ∷ [])
unfolding running
in_range = (
  tt,
  (
    (
      record { amount_fits = omega arith; fee_fits = omega arith },
      (
        record { amount_fits = omega arith; fee_fits = omega arith },
        (record { amount_fits = omega arith; fee_fits = omega arith }, tt),
      ),
    ),
    tt,
  ),
)

replay-Replays_example :
    Replays 1000
      (rewards default_params (genesis_entry ∷ entry_one ∷ []))
      (replay (genesis_entry ∷ entry_one ∷ []) rich_alice started)
replay-Replays_example =
    replay-Replays (genesis_entry ∷ entry_one ∷ []) rich_alice started (omega arith) in_range
      (omega (arith, two_rewards))
