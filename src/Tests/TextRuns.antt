-- ===== src/Tests/TextRuns.antt =====
-- Runs of the hex form of hashes, of the dialling of peers, and of the file of peers.
use blu_gold.Base.{◌≡◌, refl, true, none, some, [], ◌∷◌, bytes_eq, replicate, ok}
use blu_gold.Base.Dict.{lookup, insert}
use blu_gold.Crypto.Text.{hex_digit, hex_encode}
use blu_gold.Chain.Tx.{Hash}
use blu_gold.Chain.HashText.{hash_text, hex_value, hex_decode, unmarshal_hash}
use blu_gold.P2p.{Switch, new_switch, known_seeds, full, dial_candidates}
use blu_gold.P2p.Dialing.{dial_each, dial_pass}
use blu_gold.Store.Peers.{PeersJson, missing, holds, save_peers, load_peers}

abbrev digest : Hash
digest = 0xab ∷ replicate 31 0x07

there_and_back : unmarshal_hash (some (hash_text digest)) ≡ some digest
unfolding unmarshal_hash hex_decode hex_value hash_text hex_encode hex_digit
there_and_back = refl

-- 31 bytes are no hash.
too_short : unmarshal_hash (some (hash_text (replicate 31 1))) ≡ none
unfolding unmarshal_hash hex_decode hex_value hash_text hex_encode hex_digit
too_short = refl

abbrev dialler : Switch
dialler = new_switch (1 ∷ []) [] 5 ((3 ∷ []) ∷ (1 ∷ []) ∷ (4 ∷ []) ∷ [])

-- One seed is the node's own address, and one does not answer.
dialled :
    dial_pass
      (λ l. l)
      (λ a. record { addr = a; before = dialler; answers = bytes_eq a (4 ∷ []) })
      dialler
    ≡ (4 ∷ []) ∷ []
unfolding dial_pass dial_each new_switch known_seeds full dial_candidates lookup insert bytes_eq
dialled = refl

abbrev no_json : PeersJson
no_json = record { marshal = λ l. none; unmarshal = λ text. some ([] ∷ []) }

none_saved : load_peers no_json missing ≡ ok []
unfolding load_peers
none_saved = refl

kept : (save_peers no_json true true [] (holds (1 ∷ []))).1 ≡ holds (1 ∷ [])
unfolding save_peers
kept = refl
