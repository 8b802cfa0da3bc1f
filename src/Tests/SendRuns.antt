-- ===== src/Tests/SendRuns.antt =====
-- Runs of the commands.
use blu_gold.Base.{
  ◌≡◌, refl, true, false, some, none, [], ◌∷◌, Bytes, bytes_eq, if◌then◌else◌, replicate,
}
use blu_gold.Base.Int.{pos}
use blu_gold.Api.{get_blocks, blocks_reply}
use blu_gold.Node.Wallet.{Wallet, summary_of}
use blu_gold.Cmd.{split_commas, parse_seeds, cmd_send}
use blu_gold.Cmd.Sending.{direct_send, cmd_send-direct_send}
use blu_gold.Cmd.Wallets.{
  KeyJson, SaveSteps, missing, holds, corrupt, created, check_key, saved, load_wallet, save_wallet,
  create_wallet, load_or_create_wallet, cmd_keygen,
}
use blu_gold.Tests.Sample.{running, toy, alice_key, bob, started, genesis_entry}

abbrev alice_wallet : Wallet
alice_wallet = record { pub_key = alice_key; sign = λ m. replicate 64 9 }

-- "1.5" and "0"
cmd_send-direct_send_example :
    cmd_send (λ s. s) some (some alice_wallet) bob (49 ∷ 46 ∷ 53 ∷ []) (48 ∷ []) (pos 9) started
    ≡ direct_send (λ s. s) (some alice_wallet) bob (49 ∷ 46 ∷ 53 ∷ []) (48 ∷ []) (pos 9) started
cmd_send-direct_send_example =
    cmd_send-direct_send (λ s. s) (λ s h. refl) some (some alice_wallet) bob (49 ∷ 46 ∷ 53 ∷ [])
      (48 ∷ []) (pos 9) started (λ a f. refl)

-- "a,,b" has two seeds.
seeds : parse_seeds (λ s. s) (split_commas (97 ∷ 44 ∷ 44 ∷ 98 ∷ [])) ≡ (97 ∷ []) ∷ (98 ∷ []) ∷ []
unfolding parse_seeds split_commas bytes_eq
seeds = refl

-- More than 100 blocks are asked for, and 10 is the count.
many_blocks : get_blocks (pos 200) started ≡ blocks_reply (summary_of genesis_entry ∷ [])
unfolding running get_blocks
many_blocks = refl

abbrev steps : SaveSteps
steps = record { made_dir = true; wrote = true; renamed = true }

-- The text of a key is the key.
abbrev plain_json : KeyJson
plain_json = record {
  marshal = λ k. some k;
  unmarshal = λ text. if bytes_eq text [] then none else some text;
}

abbrev new_key : Bytes
new_key = replicate 64 7

first_start :
    load_or_create_wallet plain_json steps (some new_key) missing ≡ (created new_key, holds new_key)
unfolding load_or_create_wallet load_wallet create_wallet save_wallet saved
first_start = refl

kept :
    load_or_create_wallet plain_json steps (some new_key) (holds (1 ∷ []))
    ≡ (corrupt, holds (1 ∷ []))
unfolding load_or_create_wallet load_wallet check_key bytes_eq
kept = refl

-- `keygen` without --force replaces a wallet file that it cannot read.
replaced :
    cmd_keygen plain_json false steps (some new_key) (holds (1 ∷ []))
    ≡ (created new_key, holds new_key)
unfolding cmd_keygen load_wallet check_key create_wallet save_wallet saved bytes_eq
replaced = refl
