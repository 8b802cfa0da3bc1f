-- ===== src/Tests/MinerRuns.antt =====
-- Runs of the miner.
use blu_gold.Base.{◌≡◌, refl, some, arith}
use blu_gold.Chain.Block.{header_bytes}
use blu_gold.Miner.Midstate.{Midstate, build_midstate, finish}
use blu_gold.Miner.Midstate.Hash.{sha256_of}
use blu_gold.Miner.Midstate.Header.{IsMinable, finish-header_bytes}
use blu_gold.Tests.Sample.{toy, running, block_one}

block_one-IsMinable : IsMinable block_one
unfolding running
block_one-IsMinable = record {
  prev_bytes = omega arith;
  prev_length = refl;
  miner_bytes = omega arith;
  miner_length = refl;
  root_bytes = omega arith;
  root_length = refl;
}

finish-header_bytes_example :
    (mid : Midstate) × (build_midstate (header_bytes block_one) ≡ some mid)
    × (finish 77 mid ≡ sha256_of (header_bytes (record block_one { nonce = 77 })))
finish-header_bytes_example = finish-header_bytes block_one 77 block_one-IsMinable
