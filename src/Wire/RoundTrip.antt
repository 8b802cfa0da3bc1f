-- ===== src/Wire/RoundTrip.antt =====
-- Frames are read as they were written.
use blu_gold.Base.{
  ℕ, ◌≤◌, ◌≡◌, ◌≢◌, refl, sym, ◌∙◌, Bool, true, false, Option, none, some, [], ◌++◌, Bytes,
  bytes_eq→eq, length, length-append, take-length_append, drop-length_append, ltb, ◌%◌, ◌^◌,
  if◌then◌else◌, Result, ok, err, arith,
}
use mathlib.Core.List.{append_assoc}
use blu_gold.Miner.Midstate.{put_u32}
use blu_gold.Wire.{
  Envelope, Json, FrameError, max_frame_size, read_full, frame_length, write_frame, read_envelope,
  read_body, read_frame, not_json, too_large,
}

read_full-append : (xs ys : Bytes) → read_full (length xs) (xs ++ ys) ≡ some (xs, ys)
unfolding read_full
read_full-append xs ys =
    rw (take-length_append xs ys, drop-length_append xs ys) (ground (arith, length-append xs ys))

frame_length-put_u32 : (n : ℕ) → n ≤ max_frame_size → frame_length (put_u32 (n % 2 ^ 32)) ≡ n
unfolding frame_length
frame_length-put_u32 n small = omega arith

module _ (json : Json) where
  head_read :
      (r : Bytes) (q : Bytes × Bytes)
      → read_full 4 r ≡ some q
      → read_frame json r ≡ read_body json q
  unfolding read_frame
  head_read r q e = ground (arith, e)

  body_read :
      (head r : Bytes) (n : ℕ) (q : Bytes × Bytes)
      → frame_length head ≡ n
      → n ≤ max_frame_size
      → read_full n r ≡ some q
      → read_body json (head, r) ≡ read_envelope json q
  unfolding read_body
  body_read head r n q long small e = rw long (ground (arith, small, e))

  envelope_read :
      (buf rest : Bytes) (env : Envelope)
      → json.unmarshal buf ≡ some env
      → env.kind ≢ []
      → read_envelope json (buf, rest) ≡ ok (env, rest)
  unfolding read_envelope
  envelope_read buf rest env e named = ground (arith, e, named, bytes_eq→eq env.kind [])

  -- A frame that holds the text of an envelope.
  frame_read :
      (text rest : Bytes) (env : Envelope)
      → length text ≤ max_frame_size
      → json.unmarshal text ≡ some env
      → env.kind ≢ []
      → read_frame json ((put_u32 (length text % 2 ^ 32) ++ text) ++ rest) ≡ ok (env, rest)
  frame_read text rest env small back named =
      let head = put_u32 (length text % 2 ^ 32) in
      head_read _ (head, text ++ rest) (read_full-append head (text ++ rest))
      ∙ body_read head (text ++ rest) (length text) (text, rest)
          (frame_length-put_u32 (length text) small) small (read_full-append text rest)
      ∙ envelope_read text rest env back named

  -- A frame that `WriteFrame` has written, for an envelope with a type, whose JSON reads back as
  -- the envelope: the frame is written behind what was written before, and `ReadFrame` reads the
  -- envelope from it, and leaves what stands behind the frame.
  pub read_frame-write_frame :
      (w rest : Bytes) (env : Envelope) (out : Bytes)
      → ((text : Bytes) → json.marshal env ≡ some text → json.unmarshal text ≡ some env)
      → env.kind ≢ []
      → write_frame json w env ≡ ok out
      → (frame : Bytes) × (out ≡ w ++ frame) × (read_frame json (frame ++ rest) ≡ ok (env, rest))
  unfolding write_frame
  read_frame-write_frame w rest env out back named q = written (json.marshal env) back q
    where
      sized :
          (text : Bytes) (large : Bool)
          → ltb max_frame_size (length text) ≡ large
          → json.unmarshal text ≡ some env
          → (if large then err too_large else ok ((w ++ put_u32 (length text % 2 ^ 32)) ++ text))
            ≡ ok out
          → (frame : Bytes) × (out ≡ w ++ frame)
            × (read_frame json (frame ++ rest) ≡ ok (env, rest))
      sized text true e reads is = absurd (cc (is))
      sized text false e reads is =
          let head = put_u32 (length text % 2 ^ 32) in
          let same : (w ++ head) ++ text ≡ out = cc (is) in
          (
            head ++ text,
            sym same ∙ append_assoc w head text,
            frame_read text rest env (ground (arith, e)) reads named,
          )

      written :
          (o : Option Bytes)
          → ((text : Bytes) → o ≡ some text → json.unmarshal text ≡ some env)
          → (elim o as (λ z. Result FrameError Bytes) [
            | none ↦ err not_json
            | some text ↦
                if ltb max_frame_size (length text)
                then err too_large
                else ok ((w ++ put_u32 (length text % 2 ^ 32)) ++ text)
          ])
            ≡ ok out
          → (frame : Bytes) × (out ≡ w ++ frame)
            × (read_frame json (frame ++ rest) ≡ ok (env, rest))
      written none b is = absurd (cc (is))
      written (some text) b is = sized text (ltb max_frame_size (length text)) refl (b text refl) is
