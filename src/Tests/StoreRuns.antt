-- ===== src/Tests/StoreRuns.antt =====
-- Runs of the file of blocks.
use blu_gold.Base.{
  ◌≡◌, refl, none, some, [], ◌∷◌, ◌++◌, Bytes, bytes_eq, if◌then◌else◌, arith, ok, err,
}
use blu_gold.Store.{
  BlockJson, corrupt_line, grow_line, scan_lines, drop_cr, append_block, load_line, load_lines,
  load_blocks,
}
use blu_gold.Store.RoundTrip.{IsWhole, IsLine, load_blocks-append_block}
use blu_gold.Store.Torn.{load_blocks_torn}
use blu_gold.Tests.Sample.{toy, block_one}

-- Every block has the text "{}", and nothing else is one.
abbrev toy_json : BlockJson
toy_json = record {
  marshal = λ b. some (123 ∷ 125 ∷ []);
  unmarshal = λ text. if bytes_eq text (123 ∷ 125 ∷ []) then some block_one else none;
}

abbrev one_line : Bytes
one_line = 123 ∷ 125 ∷ 10 ∷ []

loaded : load_blocks toy_json one_line ≡ ok (block_one ∷ [])
unfolding load_blocks load_lines load_line scan_lines grow_line drop_cr bytes_eq
loaded = refl

text-IsLine : IsLine (123 ∷ 125 ∷ [])
text-IsLine = record { some_text = λ q. cc (q); short = omega arith; unbroken = omega arith }

reads : toy_json.unmarshal (123 ∷ 125 ∷ []) ≡ some block_one
unfolding bytes_eq
reads = refl

appended : append_block toy_json one_line block_one ≡ ok (123 ∷ 125 ∷ 10 ∷ 123 ∷ 125 ∷ 10 ∷ [])
unfolding append_block
appended = refl

load_blocks-append_block_example :
    IsWhole (123 ∷ 125 ∷ 10 ∷ 123 ∷ 125 ∷ 10 ∷ [])
    × (load_blocks toy_json (123 ∷ 125 ∷ 10 ∷ 123 ∷ 125 ∷ 10 ∷ [])
        ≡ ok ((block_one ∷ []) ++ (block_one ∷ [])))
load_blocks-append_block_example =
    load_blocks-append_block toy_json one_line (123 ∷ 125 ∷ 10 ∷ 123 ∷ 125 ∷ 10 ∷ [])
      (123 ∷ 125 ∷ []) (block_one ∷ []) block_one refl loaded refl reads text-IsLine appended

half-IsLine : IsLine (123 ∷ [])
half-IsLine = record { some_text = λ q. cc (q); short = omega arith; unbroken = omega arith }

no_block : toy_json.unmarshal (123 ∷ []) ≡ none
unfolding bytes_eq
no_block = refl

load_blocks_torn_example : load_blocks toy_json (one_line ++ (123 ∷ [])) ≡ err corrupt_line
load_blocks_torn_example =
    load_blocks_torn toy_json one_line 123 [] (block_one ∷ []) refl loaded half-IsLine no_block
