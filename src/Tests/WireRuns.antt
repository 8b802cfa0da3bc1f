-- ===== src/Tests/WireRuns.antt =====
-- Runs of the frames.
use blu_gold.Base.{◌≡◌, refl, some, [], ◌∷◌, ◌++◌, Bytes, ok}
use blu_gold.Wire.{Envelope, Json, write_frame, read_frame}
use blu_gold.Wire.RoundTrip.{read_frame-write_frame}

-- The first byte is the type.
unfoldable first_byte : Bytes → Envelope
first_byte [] = record { kind = []; payload = [] }
first_byte (k ∷ text) = record { kind = k ∷ []; payload = text }

abbrev toy_json : Json
toy_json = record {
  marshal = λ e. some (e.kind ++ e.payload);
  unmarshal = λ text. some (first_byte text);
}

abbrev ping : Envelope
ping = record { kind = 9 ∷ []; payload = 1 ∷ 2 ∷ [] }

written : write_frame toy_json (7 ∷ []) ping ≡ ok (7 ∷ 0 ∷ 0 ∷ 0 ∷ 3 ∷ 9 ∷ 1 ∷ 2 ∷ [])
unfolding write_frame
written = refl

reads_back :
    (text : Bytes) → toy_json.marshal ping ≡ some text → toy_json.unmarshal text ≡ some ping
unfolding first_byte
reads_back text q = cc (q)

read_frame-write_frame_example :
    (frame : Bytes) × (◌≡◌ {A = Bytes} (7 ∷ 0 ∷ 0 ∷ 0 ∷ 3 ∷ 9 ∷ 1 ∷ 2 ∷ []) ((7 ∷ []) ++ frame))
    × (read_frame toy_json (frame ++ (5 ∷ [])) ≡ ok (ping, 5 ∷ []))
read_frame-write_frame_example =
    read_frame-write_frame toy_json (7 ∷ []) (5 ∷ []) ping (7 ∷ 0 ∷ 0 ∷ 0 ∷ 3 ∷ 9 ∷ 1 ∷ 2 ∷ [])
      reads_back (λ q. cc (q)) written
