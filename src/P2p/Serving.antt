-- ===== src/P2p/Serving.antt =====
-- The handshake, and all that can happen to a switch.
use blu_gold.Base.{
  ℕ, ◌≡◌, ◌≢◌, refl, Bool, true, false, not, ◌&&◌, ◌||◌, Option, none, some, List, [], ◌∷◌, Bytes,
  arith, if◌then◌else◌,
}
use blu_gold.Base.Int.{leb_ℤ}
use blu_gold.Base.Dict.{Dict, lookup, insert, contains}
use blu_gold.P2p.{
  Net, Peer, VersionMsg, Frame, version, addresses, other, Switch, note, new_switch, start, is_self,
  has_nonce, drop_peer, persist_peers, stop, add_known, add_known_from_peer, add_all_known,
  handle_peers, same_identity, register, registered, handshake, handle, serve_frame,
  protocol_version, connected,
}
use blu_gold.P2p.Table.{
  IsSound, Sound-insert, drop_peer-IsSound, stop-IsSound, Tested, Served, Keeps, Keeps-IsSound,
  Keeps-trans,
}

module _ (net : Net) where
  -- The identity of a peer with a nonce is its nonce.
  same_identity_nonce :
      (p : Peer) (peers : Dict Peer)
      → p.nonce ≢ 0
      → same_identity net p peers ≡ false
      → has_nonce p.nonce peers ≡ false
  unfolding same_identity
  same_identity_nonce p peers some_nonce h = ground (arith, some_nonce, h)

  register-IsSound :
      (p : Peer) (s : Switch)
      → IsSound s
      → p.handshook ≡ true
      → (p.nonce ≢ 0 → p.nonce ≢ s.own_nonce)
      → IsSound (register net p s).1
  unfolding register
  register-IsSound p s g on foreign =
      guarded s.stopped (same_identity net p s.peers) (contains p.dial s.peers) refl
    where
      guarded :
          (done same there : Bool)
          → same_identity net p s.peers ≡ same
          → Tested (
              if done
              then (false, s)
              else if same
              then (false, s)
              else if there
              then (false, s)
              else (true, record s { peers = insert p.dial p s.peers }))
      guarded true same there q = g
      guarded false true there q = g
      guarded false false true q = g
      guarded false false false q =
          Sound-insert s.own_nonce p s.peers g on
            (λ n. (foreign n, same_identity_nonce p s.peers n q))

  add_known-Keeps : (a : Bytes) (s : Switch) → Keeps s (add_known net a s).1
  unfolding add_known
  add_known-Keeps a s = ground arith

  add_known_from_peer-Keeps : (a : Bytes) (s : Switch) → Keeps s (add_known_from_peer net a s)
  unfolding add_known_from_peer persist_peers
  add_known_from_peer-Keeps a s = ground (arith, add_known-Keeps a s)

  add_all_known-Keeps :
      (addrs : List Bytes) (added : Bool) (s : Switch) → Keeps s (add_all_known net addrs added s).1
  unfolding add_all_known
  add_all_known-Keeps [] added s = (refl, refl)
  add_all_known-Keeps (a ∷ more) added s =
      Keeps-trans s (add_known net a s).1
        (add_all_known net more ((add_known net a s).0 || added) (add_known net a s).1).1
        (add_known-Keeps a s)
        (add_all_known-Keeps more ((add_known net a s).0 || added) (add_known net a s).1)

  handle_peers-Keeps : (m : Option (List Bytes)) (s : Switch) → Keeps s (handle_peers net m s)
  unfolding handle_peers persist_peers
  handle_peers-Keeps none s = (refl, refl)
  handle_peers-Keeps (some addrs) s = ground (arith, add_all_known-Keeps addrs false s)

  registered-IsSound :
      (p : Peer) (a : Bytes) (q : Bool × Switch) → IsSound q.1 → IsSound (registered net p a q).1
  unfolding registered
  registered-IsSound p a (false, s) g = drop_peer-IsSound p s g
  registered-IsSound p a (true, s) g =
      Keeps-IsSound s (note (connected p) (add_known_from_peer net a s))
        (add_known_from_peer-Keeps a s) g

  is_self_nonce :
      (v : VersionMsg) (s : Switch) → is_self v s ≡ false → v.nonce ≢ 0 → v.nonce ≢ s.own_nonce
  unfolding is_self
  is_self_nonce v s h some_nonce = ground (arith, h, some_nonce)

  handshake-IsSound :
      (p : Peer) (f : Frame) (s : Switch) → IsSound s → IsSound (handshake net p f s).1
  unfolding handshake
  handshake-IsSound p (version none) s g = drop_peer-IsSound p s g
  handshake-IsSound p (addresses m) s g = drop_peer-IsSound p s g
  handshake-IsSound p (other m) s g = drop_peer-IsSound p s g
  handshake-IsSound p (version (some v)) s g =
      checked (not (leb_ℤ v.protocol protocol_version && leb_ℤ protocol_version v.protocol))
        (is_self v s) refl
    where
      q : Peer
      q = record p { advert = v.listen_addr; nonce = v.nonce; height = v.height; handshook = true }

      checked :
          (old self : Bool)
          → is_self v s ≡ self
          → Served (
              if old || self
              then (none, drop_peer p s)
              else registered net q v.listen_addr (register net q s))
      checked true self e = drop_peer-IsSound p s g
      checked false true e = drop_peer-IsSound p s g
      checked false false e =
          registered-IsSound q v.listen_addr _ (register-IsSound q s g refl (is_self_nonce v s e))

  serve_frame-IsSound :
      (p : Peer) (f : Option Frame) (s : Switch) → IsSound s → IsSound (serve_frame net p f s).1
  unfolding serve_frame handle
  serve_frame-IsSound p none s g = drop_peer-IsSound p s g
  serve_frame-IsSound p (some f) s g = phase p.handshook
    where
      handled : (x : Frame) → IsSound (handle net p x s).1
      handled (addresses m) = Keeps-IsSound s (handle_peers net m s) (handle_peers-Keeps m s) g
      handled (version v) = g
      handled (other m) = g

      phase : (greeted : Bool) → Served (if greeted then handle net p f s else handshake net p f s)
      phase true = handled f
      phase false = handshake-IsSound p f s g

  -- What happens to a switch, one lock at a time; a frame of any connection, or its end.
  pub data Step (s : Switch) : Switch → Type 0 where
    served : (p : Peer) (f : Option Frame) → Step s (serve_frame net p f s).1
    started : (bound : Bytes) → Step s (start bound s)
    ended : Step s (stop s)

  pub data Reached (listen advertise : Bytes) (nonce : ℕ) (seeds : List Bytes)
      : Switch → Type 0 where
    fresh : Reached listen advertise nonce seeds (new_switch listen advertise nonce seeds)
    step :
        (s t : Switch)
        → Reached listen advertise nonce seeds s
        → Step s t
        → Reached listen advertise nonce seeds t

  Step-IsSound : (s : Switch) {t : Switch} → Step s t → IsSound s → IsSound t
  unfolding start
  Step-IsSound s (served p f) g = serve_frame-IsSound p f s g
  Step-IsSound s (started bound) g = g
  Step-IsSound s ended g = stop-IsSound s g

  -- After any frames and ends of any connections, in any order, the peers of a switch stand under
  -- the addresses that were dialled, each behind its handshake; no two of them have one nonce, and
  -- none has the node's own, so that a node is not its own peer, and another is not there twice. (A
  -- nonce of zero is none.)
  pub Reached-IsSound :
      (listen advertise : Bytes) (nonce : ℕ) (seeds : List Bytes) {s : Switch}
      → Reached listen advertise nonce seeds s
      → IsSound s
  unfolding new_switch lookup
  Reached-IsSound listen advertise nonce seeds fresh = record {
    keyed = λ k p at. absurd (cc (at));
    greeted = λ k p at. absurd (cc (at));
    apart = λ j k p q at. absurd (cc (at));
    foreign = λ k p at. absurd (cc (at));
  }
  Reached-IsSound listen advertise nonce seeds (step s t r x) =
      Step-IsSound s x (Reached-IsSound listen advertise nonce seeds r)
