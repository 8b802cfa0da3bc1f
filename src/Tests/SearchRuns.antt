-- ===== src/Tests/SearchRuns.antt =====
-- Runs of the miner's search, with SHA-256.
use blu_gold.Base.{
  ℕ, suc, zero, ◌<◌, ◌≡◌, refl, inl, inr, true, false, Option, some, none, [], ◌∷◌, Bytes, All,
  arith, length, replicate, IsByte, ◌^◌,
}
use blu_gold.Base.Int.{pos}
use blu_gold.Crypto.Interface.{Primitives}
use blu_gold.Chain.Params.{default_params}
use blu_gold.Chain.Tx.{Hash}
use blu_gold.Chain.Block.{Block, header_bytes, zero_hash}
use blu_gold.Node.Data.{Entry}
use blu_gold.Miner.Midstate.{Midstate, build_midstate, word_bytes}
use blu_gold.Miner.Midstate.Hash.{sha256_of}
use blu_gold.Miner.Midstate.Header.{IsMinable}
use blu_gold.Miner.Target.{target_words}
use blu_gold.Miner.Kernel.{Device, search_nonces}
use blu_gold.Miner.Kernel.Answers.{Ends, Answer, Occurs, RunsAll, search_nonces-Answers}
use blu_gold.Miner.Backend.{Backend, new_miner}
use blu_gold.Miner.Workers.{
  over, work, receive, all_done, phase_of, set_phase, all_ended, receive_found, wait_done,
  new_round, try_nonce, work_on, make_move, make_moves,
}
use blu_gold.Miner.Target.{hash_below}
use blu_gold.Miner.Rounds.{Turn, search_with, new_tip}
use blu_gold.Tests.Sample.{running, block_one, toy}

pub sha256_of-length : (m : Bytes) → length (sha256_of m) ≡ 32
unfolding sha256_of word_bytes
sha256_of-length m = refl

pub sha256_of-IsByte : (m : Bytes) → All IsByte (sha256_of m)
unfolding sha256_of word_bytes
sha256_of-IsByte m = omega arith

-- SHA-256, and a scheme that takes every signature.
abbrev real : Primitives
real = record {
  sha256 = sha256_of;
  sha256_length = sha256_of-length;
  sha256_bytes = sha256_of-IsByte;
  ed25519_verify = λ pk msg sig. true;
}

-- Two work items, the second one first.
abbrev device : Device
device = record { succeeds = λ c. true; order = λ count. 1 ∷ 0 ∷ [] }

both : (id : ℕ) → id < 2 → Occurs id (1 ∷ 0 ∷ [])
both zero h = inr (inl refl)
both (suc zero) h = inl refl
both (suc (suc id)) h = absurd (omega arith)

device-RunsAll : RunsAll device 2
device-RunsAll = record { within = omega arith; covers = both }

abbrev miner_text : Bytes
miner_text = replicate 40 97

abbrev header_block : Block
header_block = record block_one { miner = miner_text }

header_block-IsMinable : IsMinable header_block
header_block-IsMinable = record {
  prev_bytes = omega arith;
  prev_length = refl;
  miner_bytes = omega arith;
  miner_length = refl;
  root_bytes = omega arith;
  root_length = refl;
}

search_nonces-Answers_example :
    (mid : Midstate) × (build_midstate (header_bytes header_block) ≡ some mid)
    × Ends device
        (Answer ⦃c = real⦄ header_block 1000 7 2)
        (search_nonces device mid (target_words 1000) 7 2)
search_nonces-Answers_example =
    search_nonces-Answers ⦃c = real⦄ (λ m. refl) header_block 1000 device 7 2 header_block-IsMinable
      (omega arith) device-RunsAll

-- A worker hashes once, its block is taken and submitted.
solved :
    (make_moves ⦃c = toy⦄ (work 0 ∷ work 0 ∷ receive ∷ all_done ∷ []) (
      new_round block_one
        (2 ^ 256)
        (new_miner miner_text (pos 1) (pos 0) Backend.cpu (pos 0)))).waiter
    ≡ over (some (record block_one { nonce = 1 }))
unfolding running make_moves make_move work_on try_nonce phase_of set_phase all_ended receive_found
    wait_done new_round hash_below new_miner
solved = refl

abbrev tip : Entry
tip = record { block = block_one; hash = zero_hash; work = 0 }

abbrev turn : Turn
turn = record {
  now = pos 5;
  node = record {
    params = default_params;
    networked = true;
    blocks = [];
    tip = some tip;
    state = [];
    checkpoints = [];
    rejected = [];
    orphans = [];
    chain_heights = λ h. none;
    mempool_tx = [];
    mempool_order = [];
    pending = none;
    pending_dirty = true;
    seen_tx = [];
    booting = false;
    log = [];
    crashed = false;
  };
  choices = search_with device ∷ new_tip ∷ [];
  moves = [];
}

abbrev hash_of : Option Entry → Hash
hash_of none = zero_hash
hash_of (some e) = e.hash
