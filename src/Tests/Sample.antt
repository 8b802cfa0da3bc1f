-- ===== src/Tests/Sample.antt =====
-- A small hash in the place of SHA-256, and a signature scheme that takes every signature of the
-- right length; keys, accounts, transactions and a block.
use mathlib.Core.List.{foldl}
use blu_gold.Base.{
  ℕ, ◌+◌, ◌*◌, ◌%◌, ◌^◌, ◌≡◌, arith, length, true, some, none, [], ◌∷◌, Bytes, replicate,
}
use blu_gold.Base.{bytes_eq, bytes_lt, if◌then◌else◌, ◌==◌, false}
use blu_gold.Base.Int.{pos, to_u64, of_u64, wrap_i64, ◌+ℤ◌, ◌-ℤ◌, ◌*ℤ◌}
use blu_gold.Base.Dict.{lookup, insert, erase}
use blu_gold.Crypto.Interface.{Primitives}
use blu_gold.Crypto.Text.{hex_digit, hex_encode, base32_char, base32_group, base32_encode}
use blu_gold.Crypto.{
  Address, address_from_pub_key, is_body_char, all_body_chars, compute_checksum, is_valid,
  verify_signature,
}
use blu_gold.Chain.Codec.{le_bytes, write_u64, write_i64, write_string, write_bytes}
use blu_gold.Chain.Params.{era_reward, reward_at, target}
use blu_gold.Chain.Codec.Injective.{length-le_bytes, le_bytes-IsByte}
use blu_gold.Chain.Tx.{
  Tx, encode, signing_bytes, is_coinbase, hash_bytes, tx_hash, verify_coinbase, verify_transfer,
  verify,
}
use blu_gold.Chain.Block.{
  Block, zero_hash, header_bytes, be_number, last_hash, pad_level, starts_with_coinbase,
  has_coinbase, has_extra_coinbase, block_hash, hash_pairs, merkle_loop, merkle_root_of,
  meets_target, validate_child, validate_basic, validate_pow, genesis,
}
use blu_gold.Chain.Difficulty.{
  keeps_difficulty, expected_time, retargeted, clamp_difficulty, next_difficulty,
}
use blu_gold.State.{
  get, account, accounts, pay, credit, apply_tx, validate_tx, apply_rest, pay_coinbase, apply_txs,
  apply_block,
}
use blu_gold.State.Monad.{State}
use blu_gold.Node.Data.{Entry, Node}
use blu_gold.Chain.Params.{default_params}
use blu_gold.Node.Sync.{
  back_to, next_step, locator_from, active_entry, is_active, locator_start, batch_from,
  blocks_after_locator, batch_count, ask_blocks, on_get_blocks, on_get_mempool, locator_of,
  tip_locator, on_peer_connect, remote_result, accept_remote_block, accept_all, next_locator,
  on_blocks, on_new_block, on_new_tx, on_mempool, on_message,
}
use blu_gold.Node.Wallet.{
  tip_height, get_account, mempool_size, sum_balances, first_amount, summary_of, recent_from,
  recent_blocks, address_of, wallet_address, unsigned_tx, signed_tx, sent_hash, send,
  submit_solution, info,
}
use blu_gold.Node.Tree.{
  ancestors, path_to_genesis, tail_after, back, anchor_of, children, reject_from, reject_subtree,
}
use blu_gold.Node.Pool.{
  keep, keep_applied, pooled, keep_all, revalidate_mempool, drop_confirmed_txs, drop_confirmed,
  add_candidate, confirmed_in, confirmed_on, eligible, insert_stable, sort_from, sort_stable,
  earlier, rebuild_mempool,
}
use blu_gold.Node.Switch.{
  beats, best_from, publish, checkpoint, on_path, first_common, last_checkpoint, base_state,
  start_height, path_heights, keep_on_path, rolled_back, replay_step, replay, commit_chain,
  first_chain, extend_chain, reorganised, reorganise, switch_chain, select_tip,
}
use blu_gold.Node.Insert.{
  orphan_count, holds_block, holds_orphan, add_orphan, check_block, place, after_promotion,
  insert_genesis, promote_orphans, accept_block, insert_checked, insert_below, insert_fuel,
  insert_block,
}
use blu_gold.Node.Transactions.{
  pend, pend_all, recompute_pending, pending_state, mark_seen, pays_more, pick, pick_all, fee_total,
  candidate_time, below_limit, cut_to, candidate_txs, add_applied, add_validated, add_tx,
  candidate_on, build_candidate,
}

unfoldable pub mix : Bytes → ℕ
mix = foldl (λ acc x. (acc * 65_537 + x + 1) % 2 ^ 256) 1

pub toy_length : (x : ℕ) → length (1 ∷ le_bytes 31 x) ≡ 32
toy_length x = omega (arith, length-le_bytes 31 x)

instance abbrev pub toy : Primitives
toy = record {
  sha256 = λ b. 1 ∷ le_bytes 31 (mix b);
  sha256_length = λ b. toy_length (mix b);
  sha256_bytes = λ b. (omega arith, le_bytes-IsByte 31 (mix b));
  ed25519_verify = λ pk msg sig. true;
}

-- What a run of the whole code unfolds: a test names this alone.
unfoldable pub running : ℕ
unfolding mix le_bytes write_u64 write_i64 write_string write_bytes to_u64 of_u64 wrap_i64 bytes_eq
    bytes_lt lookup insert erase hex_digit hex_encode base32_char base32_group base32_encode
    is_body_char all_body_chars compute_checksum address_from_pub_key is_valid verify_signature
    era_reward reward_at target encode signing_bytes is_coinbase hash_bytes tx_hash verify_coinbase
    verify_transfer verify header_bytes be_number last_hash pad_level starts_with_coinbase
    has_coinbase has_extra_coinbase block_hash hash_pairs merkle_loop merkle_root_of meets_target
    validate_child validate_basic validate_pow genesis keeps_difficulty expected_time retargeted
    clamp_difficulty next_difficulty get account accounts pay credit apply_tx validate_tx apply_rest
    pay_coinbase apply_txs apply_block ancestors path_to_genesis tail_after back anchor_of children
    reject_from reject_subtree keep keep_applied pooled keep_all revalidate_mempool
    drop_confirmed_txs drop_confirmed add_candidate confirmed_in confirmed_on eligible insert_stable
    sort_from sort_stable earlier rebuild_mempool beats best_from publish checkpoint on_path
    first_common last_checkpoint base_state start_height path_heights keep_on_path rolled_back
    replay_step replay commit_chain first_chain extend_chain reorganised reorganise switch_chain
    select_tip orphan_count holds_block holds_orphan add_orphan check_block place after_promotion
    insert_genesis promote_orphans accept_block insert_checked insert_below insert_fuel insert_block
    pend pend_all recompute_pending pending_state mark_seen pays_more pick pick_all fee_total
    candidate_time below_limit cut_to candidate_txs add_applied add_validated add_tx candidate_on
    build_candidate back_to next_step locator_from active_entry is_active locator_start batch_from
    blocks_after_locator batch_count ask_blocks on_get_blocks on_get_mempool locator_of tip_locator
    on_peer_connect remote_result accept_remote_block accept_all next_locator on_blocks on_new_block
    on_new_tx on_mempool on_message tip_height get_account mempool_size sum_balances first_amount
    summary_of recent_from recent_blocks address_of wallet_address unsigned_tx signed_tx sent_hash
    send submit_solution info ◌+ℤ◌ ◌-ℤ◌ ◌*ℤ◌
running = 0

abbrev pub alice_key : Bytes
alice_key = replicate 32 1

abbrev pub alice : Address
alice = address_from_pub_key alice_key

abbrev pub bob : Address
bob = address_from_pub_key (replicate 32 2)

-- Alice pays Bob 5 for a fee of 1.
abbrev pub payment : Tx
payment = record {
  from = alice;
  to = bob;
  amount = 5;
  fee = 1;
  nonce = 0;
  time = pos 7;
  pub_key = some alice_key;
  sig = some (replicate 64 9);
}

abbrev pub second_payment : Tx
second_payment = record payment { nonce = 1; fee = 2 }

abbrev pub coinbase : Tx
coinbase = record {
  from = [];
  to = bob;
  amount = 100_000_003;
  fee = 0;
  nonce = 1;
  time = pos 9;
  pub_key = none;
  sig = none;
}

abbrev pub rich_alice : State
rich_alice = (alice, record { balance = 1000; nonce = 0 }) ∷ []

abbrev pub block_one : Block
block_one = record {
  height = 1;
  prev_hash = zero_hash;
  time = pos 1_727_049_600_001;
  difficulty = 1;
  miner = bob;
  extra_nonce = 0;
  merkle_root = zero_hash;
  nonce = 0;
  txs = coinbase ∷ payment ∷ second_payment ∷ [];
}

abbrev pub genesis_entry : Entry
genesis_entry = record {
  block = genesis default_params;
  hash = block_hash (genesis default_params);
  work = 0;
}

-- A node at the genesis block, with Alice's money and both of her payments in the mempool.
abbrev pub started : Node
started = record {
  params = default_params;
  networked = true;
  blocks = (genesis_entry.hash, genesis_entry) ∷ [];
  tip = some genesis_entry;
  state = rich_alice;
  checkpoints = [];
  rejected = [];
  orphans = [];
  chain_heights = λ h. if h == 0 then some genesis_entry.hash else none;
  mempool_tx = (tx_hash payment, payment) ∷ (tx_hash second_payment, second_payment) ∷ [];
  mempool_order = tx_hash second_payment ∷ tx_hash payment ∷ [];
  pending = none;
  pending_dirty = true;
  seen_tx = [];
  booting = false;
  log = [];
  crashed = false;
}
