-- ===== src/Store/Torn.antt =====
-- A line that was not written to its end.
use blu_gold.Base.{
  ℕ, ◌≡◌, ◌≢◌, refl, ap, ◌∙◌, Bool, true, false, Option, none, some, List, [], ◌∷◌, ◌++◌, Bytes,
  All, bytes_eq, bytes_eq→eq, length, leb, if◌then◌else◌, Result, ok, err, arith,
}
use blu_gold.Chain.Block.{Block}
use blu_gold.Store.{
  BlockJson, StoreError, line_too_long, corrupt_line, max_line, grow_line, scan_lines, drop_cr,
  load_line, load_lines, load_blocks,
}
use blu_gold.Store.RoundTrip.{IsWhole, IsLine, scan_lines-append, drop_cr_lem}

scan_tail :
    (b : ℕ) (s : Bytes) → All (λ x. (x ≢ 10) × (x ≢ 13)) (b ∷ s) → scan_lines (b ∷ s) ≡ (b ∷ s) ∷ []
unfolding scan_lines grow_line
scan_tail b [] (hb, h) = ground (arith, hb)
scan_tail b (d ∷ s) (hb, h) = ground (arith, hb, scan_tail d s h)

-- Behind lines that load, one that does not.
torn_step :
    (bs : List Block) (long empty : Bool) (o : Option Block) (r r' : Result StoreError (List Block))
    → ((front : List Block) → r ≡ ok front → r' ≡ err corrupt_line)
    → (if long then err line_too_long else if empty then r else load_line o r) ≡ ok bs
    → (if long then err line_too_long else if empty then r' else load_line o r') ≡ err corrupt_line
unfolding load_line
torn_step bs true empty o r r' k q = absurd (cc (q))
torn_step bs false true o r r' k q = k bs q
torn_step bs false false none r r' k q = absurd (cc (q))
torn_step bs false false (some x) (err e) r' k q = absurd (cc (q))
torn_step bs false false (some x) (ok front) r' k q = rw (k front refl) refl

module _ (json : BlockJson) where
  load_lines_torn :
      (ls : List Bytes) (text : Bytes) (bs : List Block)
      → IsLine text
      → json.unmarshal text ≡ none
      → load_lines json ls ≡ ok bs
      → load_lines json (ls ++ (text ∷ [])) ≡ err corrupt_line
  unfolding load_lines load_line
  load_lines_torn [] text bs line back q =
      let same = drop_cr_lem text line.unbroken in
      let fits : leb max_line (length text) ≡ false = ground (arith, line.short) in
      let named : bytes_eq text [] ≡ false = ground (arith, bytes_eq→eq text [], line.some_text) in
      rw (same, fits, named, back) refl
  load_lines_torn (l ∷ ls) text bs line back q =
      torn_step bs (leb max_line (length l)) (bytes_eq (drop_cr l) []) (json.unmarshal (drop_cr l))
        (load_lines json ls) (load_lines json (ls ++ (text ∷ [])))
        (λ front e. load_lines_torn ls text front line back e) q

  -- Behind whole lines that load, a text that fits on a line, with no newline at its end, and that
  -- is not the JSON of a block: `LoadBlocks` fails for all of the file, and returns none of its
  -- blocks.
  pub load_blocks_torn :
      (file : Bytes) (b : ℕ) (s : Bytes) (bs : List Block)
      → IsWhole file
      → load_blocks json file ≡ ok bs
      → IsLine (b ∷ s)
      → json.unmarshal (b ∷ s) ≡ none
      → load_blocks json (file ++ (b ∷ s)) ≡ err corrupt_line
  unfolding load_blocks
  load_blocks_torn file b s bs w q line bad =
      ap (load_lines json) (
        scan_lines-append file (b ∷ s) w
        ∙ ap (λ l. scan_lines file ++ l) (scan_tail b s line.unbroken))
      ∙ load_lines_torn (scan_lines file) (b ∷ s) bs line bad q
