-- ===== src/Tests/SyncRuns.antt =====
-- Runs of the synchronisation and of the wallet's side of the node.
use blu_gold.Base.{
  List, length, ◌≤◌, Bytes, bytes_eq, ◌≡◌, refl, true, none, some, [], ◌∷◌, arith, if◌then◌else◌,
  ◌==◌, replicate, ok,
}
use blu_gold.Base.Dict.{lookup}
use blu_gold.Base.Int.{pos}
use blu_gold.Chain.Params.{default_params}
use blu_gold.Chain.Tx.{verify}
use blu_gold.Chain.Block.{Block, block_hash, genesis}
use blu_gold.Crypto.{is_valid}
use blu_gold.Node.Data.{Entry, Node}
use blu_gold.Node.Tree.{ancestors, path_to_genesis}
use blu_gold.Node.Tree.Fuel.{Descends, path_to_genesis-enough}
use blu_gold.Node.Sync.{blocks_after_locator, on_blocks, tip_locator}
use blu_gold.Node.Wallet.{Wallet, Info, info, signed_tx}
use blu_gold.Node.Tips.{
  subscribe_tips, TipMove, tip_published, tip_received, tips_cancelled, tips_subscribed,
  receive_tip, publish_tips, offer_all, offer, cancel_tips, waiting_in,
}
use blu_gold.Node.Tips.Feed.{tips_published, tips_seen, tips_seen-Sublist}
use mathlib.Core.List.{Sublistᴰ}
use blu_gold.Node.Wallet.Laws.{Signs, signed_tx-verify}
use blu_gold.Tests.Sample.{toy, running, bob, alice_key, block_one, started, genesis_entry}

abbrev child : Block
child = record block_one { prev_hash = block_hash (genesis default_params) }

abbrev child_entry : Entry
child_entry = record { block = child; hash = block_hash child; work = 1 }

-- The node with a second block on its active chain.
abbrev grown : Node
grown = record started {
  blocks = (genesis_entry.hash, genesis_entry) ∷ (child_entry.hash, child_entry) ∷ [];
  tip = some child_entry;
  chain_heights = λ h.
      if h == 0 then some genesis_entry.hash else if h == 1 then some child_entry.hash else none;
}

genesis_height : genesis_entry.block.height ≡ 0
unfolding running
genesis_height = refl

answer : blocks_after_locator (tip_locator started) 500 grown ≡ child ∷ []
unfolding running
answer = refl

-- A null block in a batch ends the process.
null_block : (on_blocks (pos 0) [] (none ∷ []) started).1.crashed ≡ true
unfolding running
null_block = refl

abbrev toy_wallet : Wallet
toy_wallet = record { pub_key = alice_key; sign = λ msg. replicate 64 9 }

toy_wallet-Signs : Signs toy_wallet
toy_wallet-Signs = record { key_length = refl; sig_length = λ msg. refl; sig_valid = λ msg. refl }

bob_valid : is_valid bob ≡ true
unfolding running
bob_valid = refl

signed_tx-verify_example : verify (signed_tx toy_wallet bob 5 1 0 (pos 7)) ≡ ok tt
signed_tx-verify_example =
    signed_tx-verify toy_wallet bob 5 1 0 (pos 7) toy_wallet-Signs bob_valid (omega arith)

abbrev reported : Info
reported = record {
  height = 0;
  tip = genesis_entry.hash;
  difficulty = 1;
  next_reward = 100_000_000;
  supply = 1000;
  address = [];
  balance = 0;
  mempool = 2;
  target_time = pos 360_000;
}

reports : info none started ≡ some reported
unfolding running
reports = refl

-- In the node with two blocks the parent is lower than its child.
two_lookups :
    (h : Bytes)
    → lookup h grown.blocks ≡ (
        if bytes_eq genesis_entry.hash h
        then some genesis_entry
        else if bytes_eq child_entry.hash h
        then some child_entry
        else none)
unfolding lookup
two_lookups h = refl

no_parent : lookup genesis_entry.block.prev_hash grown.blocks ≡ none
unfolding running
no_parent = refl

one_parent : lookup child_entry.block.prev_hash grown.blocks ≡ some genesis_entry
unfolding running
one_parent = refl

grown-Descends : Descends grown.blocks
grown-Descends h e p at below =
    ground (arith, at, below, two_lookups h, no_parent, one_parent, genesis_height)

path_to_genesis-enough_example :
    ancestors 9 child_entry grown.blocks ≡ path_to_genesis child_entry grown
unfolding running
path_to_genesis-enough_example =
    path_to_genesis-enough 9 grown child_entry.hash child_entry grown-Descends refl (omega arith)

-- Six tips while a reader takes one, beside a second reader that comes and goes.
abbrev busy : List TipMove
busy =
    tip_published child
    ∷ tips_subscribed 2 started
    ∷ tip_published block_one
    ∷ tip_received 1
    ∷ tip_published child
    ∷ tip_published child
    ∷ tips_cancelled 2
    ∷ tip_published child
    ∷ tip_published block_one
    ∷ []

-- The sixth tip finds the channel full.
seen_five :
    tips_seen 1 busy (subscribe_tips 1 started []).1
    ≡ child ∷ block_one ∷ child ∷ child ∷ child ∷ []
unfolding tips_seen receive_tip publish_tips offer_all offer subscribe_tips cancel_tips waiting_in
seen_five = refl

tips_seen-Sublist_example :
    Sublistᴰ (tips_seen 1 busy (subscribe_tips 1 started []).1) (tips_published busy)
    × (length (tips_published busy) ≤ 4
        → tips_seen 1 busy (subscribe_tips 1 started []).1 ≡ tips_published busy)
tips_seen-Sublist_example =
    tips_seen-Sublist 1 started [] busy (tt, (refl, (tt, (tt, (tt, (tt, (refl, (tt, (tt, tt)))))))))
