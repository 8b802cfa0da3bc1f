-- ===== src/Store/Peers.antt =====
-- SavePeers and LoadPeers of internal/store/store.go. JSON and the calls of the file system are
-- parameters.
use blu_gold.Base.{
  Bool, not, Option, none, some, List, [], ◌∷◌, ◌++◌, Bytes, if◌then◌else◌, Result, ok, err,
}

-- JSON of a list of addresses; nothing where it fails.
pub record PeersJson : Type 0 where
  pub marshal : List Bytes → Option Bytes
  pub unmarshal : Bytes → Option (List Bytes)

-- `peers.json`
pub data PeersFile : Type 0 where
  missing unreadable : PeersFile
  holds : Bytes → PeersFile

pub data PeersError : Type 0 where
  not_json read_failed no_write no_rename : PeersError

module _ (json : PeersJson) where
  -- `SavePeers`, with what `WriteFile` and `Rename` give; the file is replaced by the rename alone.
  unfoldable pub save_peers :
      Bool → Bool → List Bytes → PeersFile → Result PeersError (Unit {0}) × PeersFile
  save_peers wrote renamed addrs file = elim (json.marshal addrs) [
    | none ↦ (err not_json, file)
    | some text ↦
        if not wrote
        then (err no_write, file)
        else if not renamed
        then (err no_rename, file)
        else (ok tt, holds (text ++ (10 ∷ [])))
  ]

  -- `LoadPeers`
  unfoldable pub load_peers : PeersFile → Result PeersError (List Bytes)
  load_peers missing = ok []
  load_peers unreadable = err read_failed
  load_peers (holds text) = elim (json.unmarshal text) [
    | none ↦ err not_json
    | some addrs ↦ ok addrs
  ]
