-- ===== src/P2p/Table.antt =====
-- The table of peers: what every call keeps.
use blu_gold.Base.{
  ℕ, ◌≡◌, ◌≢◌, refl, sym, ap, ◌∙◌, Bool, true, false, Bool-cases, inl, inr, ◌⊎◌, Option, none, some,
  [], ◌∷◌, Bytes, bytes_eq, bytes_eq→eq, arith, ◌==◌, if◌then◌else◌,
}
use blu_gold.Base.Dict.{Dict, lookup, insert, erase, lookup-insert, lookup-erase}
use blu_gold.P2p.{
  Peer, Switch, note, has_nonce, drop_peer, stop, close_all, closed_conn, disconnected,
}

-- Each peer stands under the address that was dialled, behind its handshake; no two peers have one
-- nonce; and none has the node's own. (A nonce of zero is none.)
pub record Sound (own : ℕ) (peers : Dict Peer) : Type 0 where
  pub keyed : (k : Bytes) (p : Peer) → lookup k peers ≡ some p → p.dial ≡ k
  pub greeted : (k : Bytes) (p : Peer) → lookup k peers ≡ some p → p.handshook ≡ true
  pub apart :
      (j k : Bytes) (p q : Peer)
      → lookup j peers ≡ some p
      → lookup k peers ≡ some q
      → p.nonce ≢ 0
      → p.nonce ≡ q.nonce
      → j ≡ k
  pub foreign : (k : Bytes) (p : Peer) → lookup k peers ≡ some p → p.nonce ≢ 0 → p.nonce ≢ own

abbrev pub IsSound : Switch → Type 0
IsSound s = Sound s.own_nonce s.peers

has_nonce_lem :
    (n : ℕ) (peers : Dict Peer) (k : Bytes) (p : Peer)
    → has_nonce n peers ≡ false
    → lookup k peers ≡ some p
    → p.nonce ≢ n
unfolding has_nonce lookup
has_nonce_lem n [] k p h at = absurd (cc (at))
has_nonce_lem n ((j, q) ∷ peers) k p h at = ground (arith, h, at, has_nonce_lem n peers k p)

Sound-erase :
    (own : ℕ) (k : Bytes) (peers : Dict Peer) → Sound own peers → Sound own (erase k peers)
Sound-erase own k peers g = record {
  keyed = λ j p at. g.keyed j p (left j p at);
  greeted = λ j p at. g.greeted j p (left j p at);
  apart = λ i j p q at at' some_nonce same.
      g.apart i j p q (left i p at) (left j q at') some_nonce same;
  foreign = λ j p at. g.foreign j p (left j p at);
}
  where
    left : (j : Bytes) (p : Peer) → lookup j (erase k peers) ≡ some p → lookup j peers ≡ some p
    left j p at = ground (arith, at, lookup-erase k j peers)

pub Sound-insert :
    (own : ℕ) (x : Peer) (peers : Dict Peer)
    → Sound own peers
    → x.handshook ≡ true
    → (x.nonce ≢ 0 → (x.nonce ≢ own) × (has_nonce x.nonce peers ≡ false))
    → Sound own (insert x.dial x peers)
Sound-insert own x peers g on fresh = record {
  keyed = λ k p at. elim (either k p at) [
    | inl (same, is) ↦ ap (λ (y : Peer). y.dial) is ∙ sym same
    | inr old ↦ g.keyed k p old
  ];
  greeted = λ k p at. elim (either k p at) [
    | inl (same, is) ↦ ap (λ (y : Peer). y.handshook) is ∙ on
    | inr old ↦ g.greeted k p old
  ];
  apart = λ j k p q at at' some_nonce same. elim (either j p at) [
    | inl (j_is, p_is) ↦ elim (either k q at') [
      | inl (k_is, q_is) ↦ j_is ∙ sym k_is
      | inr old ↦
          let mine = ap (λ (y : Peer). y.nonce) p_is in
          absurd (
            has_nonce_lem x.nonce peers k q (fresh (λ z. some_nonce (mine ∙ z))).1 old
              (sym same ∙ mine))
    ]
    | inr old ↦ elim (either k q at') [
      | inl (k_is, q_is) ↦
          let mine = ap (λ (y : Peer). y.nonce) q_is in
          absurd (
            has_nonce_lem x.nonce peers j p (fresh (λ z. some_nonce (same ∙ (mine ∙ z)))).1 old
              (same ∙ mine))
      | inr old' ↦ g.apart j k p q old old' some_nonce same
    ]
  ];
  foreign = λ k p at some_nonce. elim (either k p at) [
    | inl (same, is) ↦
        let mine = ap (λ (y : Peer). y.nonce) is in
        λ q. (fresh (λ z. some_nonce (mine ∙ z))).0 (sym mine ∙ q)
    | inr old ↦ g.foreign k p old some_nonce
  ];
}
  where
    either :
        (k : Bytes) (p : Peer)
        → lookup k (insert x.dial x peers) ≡ some p
        → ((k ≡ x.dial) × (p ≡ x)) ⊎ (lookup k peers ≡ some p)
    either k p at = elim (Bool-cases (bytes_eq x.dial k)) [
      | inl same ↦ inl (
        sym (bytes_eq→eq x.dial k same),
        ground (arith, at, same, lookup-insert x.dial k x peers),
      )
      | inr other_key ↦ inr (ground (arith, at, other_key, lookup-insert x.dial k x peers))
    ]

abbrev pub Tested : Bool × Switch → Type 0
Tested r = IsSound r.1

abbrev pub Served : Option Peer × Switch → Type 0
Served r = IsSound r.1

-- A call that leaves the table and the nonce alone.
abbrev pub Keeps : Switch → Switch → Type 0
Keeps s t = (t.peers ≡ s.peers) × (t.own_nonce ≡ s.own_nonce)

pub Keeps-IsSound : (s t : Switch) → Keeps s t → IsSound s → IsSound t
Keeps-IsSound s t (p, q) g = rw (p, q) g

pub Keeps-trans : (s t u : Switch) → Keeps s t → Keeps t u → Keeps s u
Keeps-trans s t u (p, q) (p', q') = (p' ∙ p, q' ∙ q)

pub drop_peer-IsSound : (p : Peer) (s : Switch) → IsSound s → IsSound (drop_peer p s)
unfolding drop_peer
drop_peer-IsSound p s g = at_dial (lookup p.dial s.peers)
  where
    at_dial :
        (o : Option Peer)
        → IsSound (elim o as (λ z. Switch) [
          | none ↦ note (closed_conn p) s
          | some q ↦
              if q.conn == p.conn
              then note
                  (disconnected p)
                  (record (note (closed_conn p) s) { peers = erase p.dial s.peers })
              else note (closed_conn p) s
        ])
    at_dial none = g
    at_dial (some q) = elim (Bool-cases (q.conn == p.conn)) [
      | inl same ↦ rw same (Sound-erase s.own_nonce p.dial s.peers g)
      | inr other_conn ↦ rw other_conn g
    ]

close_all-Keeps : (peers : Dict Peer) (s : Switch) → Keeps s (close_all peers s)
unfolding close_all
close_all-Keeps [] s = (refl, refl)
close_all-Keeps ((k, p) ∷ peers) s = close_all-Keeps peers (note (closed_conn p) s)

pub stop-IsSound : (s : Switch) → IsSound s → IsSound (stop s)
unfolding stop
stop-IsSound s g = elim (Bool-cases s.stopped) [
  | inl done ↦ rw done g
  | inr going ↦ rw going (
      Keeps-IsSound (record s { stopped = true }) (close_all s.peers (record s { stopped = true }))
        (close_all-Keeps s.peers (record s { stopped = true })) g)
]
