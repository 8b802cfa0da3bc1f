-- ===== src/Tests/PeerRuns.antt =====
-- Runs of the switch.
use blu_gold.Base.{ℕ, suc, ◌≡◌, refl, true, false, none, some, [], ◌∷◌, bytes_eq, length, All, ◌⊎◌}
use blu_gold.Base.Int.{pos}
use blu_gold.Base.Dict.{lookup, insert, erase}
use blu_gold.P2p.{
  Net, Peer, Frame, version, Switch, new_switch, known_seeds, is_self, is_self_addr, has_nonce,
  has_advert, drop_peer, persist_peers, known_addrs, full, host_of, is_unspecified_addr,
  is_public_dialable, add_known, add_known_from_peer, same_identity, register, registered,
  handshake, handle, serve_frame, highest_from, best_peer_height,
}
use blu_gold.P2p.Best.{Listed, IsWithin, best_peer_height-IsWithin}
use blu_gold.P2p.Table.{IsSound}
use blu_gold.P2p.Serving.{served, fresh, step, Reached-IsSound}

-- Every text is a host of its own, and no IP address.
abbrev named_hosts : Net
named_hosts = record { split_host = λ a. some a; parse_ip = λ a. none }

abbrev switch : Switch
switch = new_switch (1 ∷ []) (2 ∷ []) 55 ((3 ∷ []) ∷ (1 ∷ []) ∷ [])

abbrev caller : Peer
caller = record { conn = 7; dial = 4 ∷ []; advert = []; nonce = 0; height = 0; handshook = false }

abbrev hello : Frame
hello = version (some (record { protocol = pos 2; listen_addr = 5 ∷ []; height = 9; nonce = 66 }))

unfoldable running : ℕ
unfolding new_switch known_seeds is_self is_self_addr has_nonce has_advert drop_peer persist_peers
    known_addrs full host_of is_unspecified_addr is_public_dialable add_known add_known_from_peer
    same_identity register registered handshake handle serve_frame highest_from best_peer_height
    lookup insert erase bytes_eq
running = 0

abbrev met : Switch
met = (serve_frame named_hosts caller (some hello) switch).1

-- The caller is a peer, and the address that it advertises is known.
greeted :
    best_peer_height met
    ≡ (9, some (record caller { advert = 5 ∷ []; nonce = 66; height = 9; handshook = true }))
unfolding running
greeted = refl

learned : known_addrs met ≡ (3 ∷ []) ∷ (5 ∷ []) ∷ []
unfolding running
learned = refl

-- A call by the node itself is dropped.
own_call :
    (serve_frame named_hosts caller
      (some (
        version (some (record { protocol = pos 2; listen_addr = 5 ∷ []; height = 9; nonce = 55 }))))
      switch).0
    ≡ none
unfolding running
own_call = refl

Reached-IsSound_example : IsSound met
Reached-IsSound_example =
    Reached-IsSound named_hosts (1 ∷ []) (2 ∷ []) 55 ((3 ∷ []) ∷ (1 ∷ []) ∷ [])
      (step switch met fresh (served caller (some hello)))

abbrev crowded : Switch
crowded = record met { max_peers = pos 1 }

abbrev second : Peer
second = record {
  conn = 8;
  dial = 6 ∷ [];
  advert = 6 ∷ [];
  nonce = 67;
  height = 0;
  handshook = true;
}

-- A peer whose handshake ends while the table is full is still taken.
at_max : full crowded ≡ true
unfolding running
at_max = refl

grows :
    ((register named_hosts second crowded).0 ≡ true)
    × (length (register named_hosts second crowded).1.peers ≡ suc (length crowded.peers))
unfolding running
grows = (refl, refl)

best_peer_height-IsWithin_example :
    All (IsWithin (best_peer_height met).0) met.peers
    × ((best_peer_height met ≡ (0, none))
        ⊎ ((p : Peer) × ((best_peer_height met).1 ≡ some p)
            × ((best_peer_height met).0 ≡ p.height)
            × (p.handshook ≡ true)
            × Listed p met.peers))
best_peer_height-IsWithin_example = best_peer_height-IsWithin met
