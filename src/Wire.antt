-- ===== src/Wire.antt =====
-- internal/wire/wire.go: the frames on a connection. JSON is a parameter; a connection is the bytes
-- that are still to be read, or that have been written.
pub mod RoundTrip
use blu_gold.Base.{
  ℕ, ◌*◌, ◌+◌, ◌^◌, ◌%◌, Bool, Option, none, some, List, [], ◌∷◌, ◌++◌, Bytes, bytes_eq, length,
  take, drop, ltb, if◌then◌else◌, Result, ok, err,
}
use blu_gold.Miner.Midstate.{put_u32, word}

-- `Envelope`; the payload is the raw JSON.
pub record Envelope : Type 0 where
  pub kind : Bytes
  pub payload : Bytes

-- `json.Marshal` and `json.Unmarshal` of an envelope; nothing where they fail.
pub record Json : Type 0 where
  pub marshal : Envelope → Option Bytes
  pub unmarshal : Bytes → Option Envelope

pub data FrameError : Type 0 where
  not_json too_large cut_short no_kind : FrameError

abbrev pub max_frame_size : ℕ
max_frame_size = 8 * 1024 * 1024

-- `io.ReadFull` of `n` bytes: they and the rest, or nothing.
unfoldable pub read_full : ℕ → Bytes → Option (Bytes × Bytes)
read_full n r = if ltb (length r) n then none else some (take n r, drop n r)

-- `binary.BigEndian.Uint32` of four bytes.
unfoldable pub frame_length : Bytes → ℕ
frame_length (a ∷ b ∷ c ∷ d ∷ rest) = word a b c d
frame_length _ = 0

module _ (json : Json) where
  -- `WriteFrame`, to a connection that takes all it is given.
  unfoldable pub write_frame : Bytes → Envelope → Result FrameError Bytes
  write_frame w env = elim (json.marshal env) [
    | none ↦ err not_json
    | some text ↦
        if ltb max_frame_size (length text)
        then err too_large
        else ok ((w ++ put_u32 (length text % 2 ^ 32)) ++ text)
  ]

  -- The end of `ReadFrame`.
  unfoldable pub read_envelope : Bytes × Bytes → Result FrameError (Envelope × Bytes)
  read_envelope (buf, rest) = elim (json.unmarshal buf) [
    | none ↦ err not_json
    | some env ↦ if bytes_eq env.kind [] then err no_kind else ok (env, rest)
  ]

  -- `ReadFrame` behind the length.
  unfoldable pub read_body : Bytes × Bytes → Result FrameError (Envelope × Bytes)
  read_body (head, rest) =
      if ltb max_frame_size (frame_length head)
      then err too_large
      else elim (read_full (frame_length head) rest) [
        | none ↦ err cut_short
        | some r ↦ read_envelope r
      ]

  -- `ReadFrame`: the envelope, and what is left to be read.
  unfoldable pub read_frame : Bytes → Result FrameError (Envelope × Bytes)
  read_frame r = elim (read_full 4 r) [ none ↦ err cut_short | some q ↦ read_body q ]
