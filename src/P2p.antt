-- ===== src/P2p.antt =====
-- internal/p2p/p2p.go: the table of peers and the handshake. The sockets and the goroutines around
-- them are outside: a connection is a number, and what happens on it is a frame or the end of it.
pub mod Table
pub mod Serving
pub mod Best
pub mod Dialing
use blu_gold.Base.{
  ℕ, ◌+◌, Bool, true, false, not, ◌&&◌, ◌||◌, Option, none, some, List, [], ◌∷◌, ◌++◌, Bytes,
  bytes_eq, map, length, ltb, take, ◌==◌, if◌then◌else◌,
}
use blu_gold.Base.Int.{ℤ, pos, leb_ℤ}
use blu_gold.Base.Dict.{Dict, lookup, insert, erase, contains}

-- What `net.ParseIP` and the tests of an address say.
pub record IpKind : Type 0 where
  pub unspecified : Bool
  pub loopback : Bool
  pub is_private : Bool
  pub link_local : Bool
  pub multicast : Bool

-- The host of `net.SplitHostPort`, and `net.ParseIP`; nothing where they fail.
pub record Net : Type 0 where
  pub split_host : Bytes → Option Bytes
  pub parse_ip : Bytes → Option IpKind

-- `Peer`; `conn` stands for the connection and for the pointer.
pub record Peer : Type 0 where
  pub conn : ℕ
  pub dial : Bytes
  pub advert : Bytes
  pub nonce : ℕ
  pub height : ℕ
  pub handshook : Bool

-- `wire.VersionMsg`
pub record VersionMsg : Type 0 where
  pub protocol : ℤ
  pub listen_addr : Bytes
  pub height : ℕ
  pub nonce : ℕ

-- `wire.ProtocolVersion`
abbrev pub protocol_version : ℤ
protocol_version = pos 2

-- A frame, with its payload decoded; nothing where the JSON does not fit. `other` is for the node.
pub data Frame : Type 0 where
  version : Option VersionMsg → Frame
  addresses : Option (List Bytes) → Frame
  other : Bytes → Frame

-- What the switch does outside its own memory.
pub data PeerEvent : Type 0 where
  connected disconnected closed_conn : Peer → PeerEvent
  delivered : Peer → Frame → PeerEvent
  persisted : List Bytes → PeerEvent

-- `bound` is the address of the listener.
pub record Switch : Type 0 where
  pub listen : Bytes
  pub advertise : Bytes
  pub own_nonce : ℕ
  pub max_peers : ℤ
  pub peers : Dict Peer
  pub known : Dict Bool
  pub bound : Option Bytes
  pub stopped : Bool
  pub events : List PeerEvent

abbrev pub note : PeerEvent → Switch → Switch
note e s = record s { events = s.events ++ (e ∷ []) }

-- `newNonce`, for what the random source gives, or else the clock.
unfoldable pub new_nonce : Option ℕ → ℕ → ℕ
new_nonce none clock = if clock == 0 then 1 else clock
new_nonce (some n) clock = if n == 0 then 1 else n

-- The seeds that are not the node's own address.
unfoldable pub known_seeds : Bytes → Bytes → List Bytes → Dict Bool → Dict Bool
known_seeds listen advertise [] known = known
known_seeds listen advertise (seed ∷ seeds) known = known_seeds listen advertise seeds (
    if bytes_eq seed [] || bytes_eq seed listen || bytes_eq seed advertise
    then known
    else insert seed true known)

-- `New`
unfoldable pub new_switch : Bytes → Bytes → ℕ → List Bytes → Switch
new_switch listen advertise nonce seeds =
    let advertise' = if bytes_eq advertise [] then listen else advertise in
    record {
      listen = listen;
      advertise = advertise';
      own_nonce = nonce;
      max_peers = pos 32;
      peers = [];
      known = known_seeds listen advertise' seeds [];
      bound = none;
      stopped = false;
      events = [];
    }

-- `Start`, with the address that the listener got.
unfoldable pub start : Bytes → Switch → Switch
start bound s = record s {
  advertise = if bytes_eq s.advertise s.listen then bound else s.advertise;
  bound = some bound;
}

abbrev pub is_bound : Bytes → Switch → Bool
is_bound addr s = elim s.bound [ none ↦ false | some bound ↦ bytes_eq addr bound ]

-- `KnownAddrs`
unfoldable pub known_addrs : Switch → List Bytes
known_addrs s = map (λ (p : Bytes × Bool). p.0) s.known

-- `full`
unfoldable pub full : Switch → Bool
full s = leb_ℤ s.max_peers (pos (length s.peers))

-- `isSelfAddr`
unfoldable pub is_self_addr : Bytes → Switch → Bool
is_self_addr addr s = bytes_eq addr s.advertise || bytes_eq addr s.listen || is_bound addr s

-- `isSelf`
unfoldable pub is_self : VersionMsg → Switch → Bool
is_self v s = if not (v.nonce == 0) then v.nonce == s.own_nonce else is_self_addr v.listen_addr s

unfoldable pub has_nonce : ℕ → Dict Peer → Bool
has_nonce n [] = false
has_nonce n ((_, p) ∷ peers) = p.nonce == n || has_nonce n peers

unfoldable pub has_advert : Bytes → Dict Peer → Bool
has_advert a [] = false
has_advert a ((_, p) ∷ peers) = bytes_eq p.advert a || has_advert a peers

-- `dropPeer`
unfoldable pub drop_peer : Peer → Switch → Switch
drop_peer p s =
    let t = note (closed_conn p) s in
    elim (lookup p.dial t.peers) [
      | none ↦ t
      | some q ↦
          if q.conn == p.conn
          then note (disconnected p) (record t { peers = erase p.dial t.peers })
          else t
    ]

-- `persistPeers`
unfoldable pub persist_peers : Switch → Switch
persist_peers s = note (persisted (known_addrs s)) s

-- What `dialPass` dials, before it shuffles: the known addresses of no peer.
unfoldable pub dial_candidates : Dict Bool → Dict Peer → List Bytes
dial_candidates [] peers = []
dial_candidates ((a, _) ∷ known) peers =
    let rest = dial_candidates known peers in if contains a peers then rest else a ∷ rest

-- What `peersLoop` sends.
unfoldable pub announced : Switch → List Bytes
announced s = take 64 (known_addrs s)

-- `Broadcast`: the peers that a message goes to.
unfoldable pub broadcast_to : Bytes → Dict Peer → List Peer
broadcast_to except [] = []
broadcast_to except ((_, p) ∷ peers) =
    let rest = broadcast_to except peers in
    if bytes_eq p.dial except || not p.handshook then rest else p ∷ rest

-- The loop of `BestPeerHeight`.
unfoldable pub highest_from : ℕ → Option Peer → Dict Peer → ℕ × Option Peer
highest_from h best [] = (h, best)
highest_from h best ((_, p) ∷ peers) =
    let better = p.handshook && ltb h p.height in
    highest_from (if better then p.height else h) (if better then some p else best) peers

-- `BestPeerHeight`
unfoldable pub best_peer_height : Switch → ℕ × Option Peer
best_peer_height s = highest_from 0 none s.peers

-- `Stop`: the connections of the peers are closed; each then ends by itself.
unfoldable pub close_all : Dict Peer → Switch → Switch
close_all [] s = s
close_all ((_, p) ∷ peers) s = close_all peers (note (closed_conn p) s)

unfoldable pub stop : Switch → Switch
stop s = if s.stopped then s else close_all s.peers (record s { stopped = true })

module _ (net : Net) where
  -- `hostOf`
  unfoldable pub host_of : Bytes → Bytes
  host_of addr = elim (net.split_host addr) [ none ↦ [] | some host ↦ host ]

  -- `isUnspecifiedAddr`
  unfoldable pub is_unspecified_addr : Bytes → Bool
  is_unspecified_addr addr =
      if bytes_eq (host_of addr) []
      then true
      else elim (net.parse_ip (host_of addr)) [ none ↦ false | some ip ↦ ip.unspecified ]

  -- `isPublicDialable`
  unfoldable pub is_public_dialable : Bytes → Bool
  is_public_dialable addr =
      if bytes_eq (host_of addr) [] then false else elim (net.parse_ip (host_of addr)) [
        | none ↦ true
        | some ip ↦
            not ip.unspecified
            && not ip.loopback
            && not ip.is_private
            && not ip.link_local
            && not ip.multicast
      ]

  -- `AddKnown`
  unfoldable pub add_known : Bytes → Switch → Bool × Switch
  add_known addr s =
      if bytes_eq addr [] || s.stopped
      then (false, s)
      else if is_unspecified_addr addr
      then (false, s)
      else if is_self_addr addr s
      then (false, s)
      else if contains addr s.known
      then (false, s)
      else (true, record s { known = insert addr true s.known })

  -- `addKnownFromPeer`
  unfoldable pub add_known_from_peer : Bytes → Switch → Switch
  add_known_from_peer addr s =
      let (added, t) = add_known addr s in if added then persist_peers t else t

  -- The loop of `handlePeersMsg`: whether an address was new.
  unfoldable pub add_all_known : List Bytes → Bool → Switch → Bool × Switch
  add_all_known [] added s = (added, s)
  add_all_known (a ∷ addrs) added s =
      let (fresh, t) = add_known a s in add_all_known addrs (fresh || added) t

  -- `handlePeersMsg`
  unfoldable pub handle_peers : Option (List Bytes) → Switch → Switch
  handle_peers none s = s
  handle_peers (some addrs) s =
      let (added, t) = add_all_known addrs false s in if added then persist_peers t else t

  -- Another peer is already there under the identity of `p`.
  unfoldable pub same_identity : Peer → Dict Peer → Bool
  same_identity p peers =
      if not (p.nonce == 0)
      then has_nonce p.nonce peers
      else not (bytes_eq p.advert []) && is_public_dialable p.advert && has_advert p.advert peers

  -- `register`
  unfoldable pub register : Peer → Switch → Bool × Switch
  register p s =
      if s.stopped
      then (false, s)
      else if same_identity p s.peers
      then (false, s)
      else if contains p.dial s.peers
      then (false, s)
      else (true, record s { peers = insert p.dial p s.peers })

  -- What follows `register`.
  unfoldable pub registered : Peer → Bytes → Bool × Switch → Option Peer × Switch
  registered p listen_addr (false, s) = (none, drop_peer p s)
  registered p listen_addr (true, s) =
      (some p, note (connected p) (add_known_from_peer listen_addr s))

  -- The first frame of a connection. The peer that goes on, or none where it is dropped.
  unfoldable pub handshake : Peer → Frame → Switch → Option Peer × Switch
  handshake p (version (some v)) s =
      let q = record p {
        advert = v.listen_addr;
        nonce = v.nonce;
        height = v.height;
        handshook = true;
      } in
      if not (leb_ℤ v.protocol protocol_version && leb_ℤ protocol_version v.protocol) || is_self v s
      then (none, drop_peer p s)
      else registered q v.listen_addr (register q s)
  handshake p (version none) s = (none, drop_peer p s)
  handshake p (addresses m) s = (none, drop_peer p s)
  handshake p (other m) s = (none, drop_peer p s)

  -- A frame behind the handshake.
  unfoldable pub handle : Peer → Frame → Switch → Option Peer × Switch
  handle p (addresses m) s = (some p, handle_peers m s)
  handle p (version v) s = (some p, note (delivered p (version v)) s)
  handle p (other m) s = (some p, note (delivered p (other m)) s)

  -- One round of `serveConn`; `none` is an error of `ReadFrame`.
  unfoldable pub serve_frame : Peer → Option Frame → Switch → Option Peer × Switch
  serve_frame p none s = (none, drop_peer p s)
  serve_frame p (some f) s = if p.handshook then handle p f s else handshake p f s
