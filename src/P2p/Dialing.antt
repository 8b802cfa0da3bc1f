-- ===== src/P2p/Dialing.antt =====
-- The start of a connection in internal/p2p/p2p.go: acceptLoop, dialPass, and what serveConn sends
-- first. The shuffle and the dialling are parameters.
use blu_gold.Base.{
  ℕ, Bool, false, not, ◌||◌, Option, none, some, List, [], ◌∷◌, Bytes, bytes_eq, length, map,
  if◌then◌else◌,
}
use blu_gold.P2p.{Switch, Peer, VersionMsg, protocol_version, full, dial_candidates}

-- `acceptLoop`: a connection is closed where the table is full.
unfoldable pub accepts : Switch → Bool
accepts s = not (full s)

-- One candidate of `dialPass`: the switch when its turn comes, and whether it answers.
pub record Attempt : Type 0 where
  pub addr : Bytes
  pub before : Switch
  pub answers : Bool

-- The loop of `dialPass`: the addresses that are served.
unfoldable pub dial_each : List Attempt → List Bytes
dial_each [] = []
dial_each (a ∷ rest) =
    let more = dial_each rest in
    if a.before.stopped || full a.before then [] else if a.answers then a.addr ∷ more else more

-- `dialPass`, for a shuffle, and what each candidate meets.
unfoldable pub dial_pass : (List Bytes → List Bytes) → (Bytes → Attempt) → Switch → List Bytes
dial_pass shuffle attempt s =
    if full s then [] else dial_each (map attempt (shuffle (dial_candidates s.known s.peers)))

-- The peer of a new connection, with the address that was dialled, or else the remote one.
unfoldable pub new_peer : ℕ → Bytes → Bytes → Peer
new_peer conn dial_addr remote_addr = record {
  conn = conn;
  dial = if bytes_eq dial_addr [] then remote_addr else dial_addr;
  advert = [];
  nonce = 0;
  height = 0;
  handshook = false;
}

-- `heightSafe`
unfoldable pub height_safe : Option ℕ → ℕ
height_safe none = 0
height_safe (some h) = h

-- What `serveConn` sends first.
unfoldable pub our_version : Option ℕ → Switch → VersionMsg
our_version height s = record {
  protocol = protocol_version;
  listen_addr = s.advertise;
  height = height_safe height;
  nonce = s.own_nonce;
}

-- `PeerCount`
unfoldable pub peer_count : Switch → ℕ
peer_count s = length s.peers

-- `Addr`
unfoldable pub switch_addr : Switch → Bytes
switch_addr s = elim s.bound [ none ↦ s.listen | some bound ↦ bound ]
