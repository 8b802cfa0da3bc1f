-- ===== src/P2p/Best.antt =====
-- The highest peer.
use blu_gold.Base.{
  ℕ, ◌≤◌, ◌≡◌, refl, true, ◌&&◌, Bool-cases, inl, inr, ◌⊎◌, Option, none, some, [], ◌∷◌, Bytes, All,
  arith, ltb,
}
use blu_gold.Base.Dict.{Dict}
use blu_gold.P2p.{Peer, Switch, highest_from, best_peer_height}

abbrev pub Listed : Peer → Dict Peer → Type 0
Listed p [] = ⊥
Listed p ((k, q) ∷ peers) = (p ≡ q) ⊎ Listed p peers

-- A peer behind its handshake is not higher than `h`.
abbrev pub IsWithin : ℕ → Bytes × Peer → Type 0
IsWithin h e = e.1.handshook ≡ true → e.1.height ≤ h

-- What the loop has found, from `h` and `best` on.
record Found (h : ℕ) (best : Option Peer) (peers : Dict Peer) (r : ℕ × Option Peer) : Type 0 where
  grows : h ≤ r.0
  within : All (IsWithin r.0) peers
  held :
      (r ≡ (h, best))
      ⊎ ((p : Peer) × (r.1 ≡ some p) × (r.0 ≡ p.height) × (p.handshook ≡ true) × Listed p peers)

highest_from-Found :
    (peers : Dict Peer) (h : ℕ) (best : Option Peer)
    → Found h best peers (highest_from h best peers)
unfolding highest_from
highest_from-Found [] h best = record { grows = omega arith; within = tt; held = inl refl }
highest_from-Found ((k, p) ∷ peers) h best = elim (Bool-cases (p.handshook && ltb h p.height)) [
  | inl better ↦ rw better (
      let f = highest_from-Found peers p.height (some p) in
      record {
        grows = ground (arith, f.grows, better);
        within = (λ on. ground (arith, f.grows), f.within);
        held = inr (elim f.held [
          | inl same ↦
              (p, ground (arith, same), ground (arith, same), ground (arith, better), inl refl)
          | inr (q, is, high, on, at) ↦ (q, is, high, on, inr at)
        ]);
      })
  | inr worse ↦ rw worse (
      let f = highest_from-Found peers h best in
      record {
        grows = f.grows;
        within = (λ on. ground (arith, f.grows, worse, on), f.within);
        held = elim f.held [
          | inl same ↦ inl same
          | inr (q, is, high, on, at) ↦ inr (q, is, high, on, inr at)
        ];
      })
]

-- `BestPeerHeight`: no peer behind its handshake is higher than the height that comes back; and
-- that is the height of the peer that comes back, one of the table behind its handshake, or zero
-- with no peer.
pub best_peer_height-IsWithin :
    (s : Switch)
    → All (IsWithin (best_peer_height s).0) s.peers
      × ((best_peer_height s ≡ (0, none))
          ⊎ ((p : Peer) × ((best_peer_height s).1 ≡ some p)
              × ((best_peer_height s).0 ≡ p.height)
              × (p.handshook ≡ true)
              × Listed p s.peers))
unfolding best_peer_height
best_peer_height-IsWithin s = let f = highest_from-Found s.peers 0 none in (f.within, f.held)
