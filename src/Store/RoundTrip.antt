-- ===== src/Store/RoundTrip.antt =====
-- The blocks that were appended are loaded, in the order in which they were appended.
use blu_gold.Base.{
  ℕ, ◌<◌, ◌≡◌, ◌≢◌, refl, sym, subst, ap, ◌∙◌, Bool, true, false, Bool-cases, inl, inr, Option,
  none, some, List, [], ◌∷◌, ◌++◌, Bytes, All, bytes_eq, bytes_eq→eq, length, leb, ◌==◌,
  if◌then◌else◌, Result, ok, err, arith,
}
use blu_gold.Chain.Block.{Block}
use blu_gold.Store.{
  BlockJson, StoreError, line_too_long, max_line, grow_line, scan_lines, drop_cr, append_block,
  load_line, load_lines, load_blocks,
}

-- A file of whole lines is empty or ends with a newline.
abbrev pub IsWhole : Bytes → Type 0
IsWhole [] = Unit {0}
IsWhole (b ∷ []) = b ≡ 10
IsWhole (b ∷ c ∷ s) = IsWhole (c ∷ s)

-- A text that fits on a line: not empty, not too long, and with no line break in it.
pub record IsLine (text : Bytes) : Type 0 where
  pub some_text : text ≢ []
  pub short : length text < max_line
  pub unbroken : All (λ b. (b ≢ 10) × (b ≢ 13)) text

grow_line-append :
    (b : ℕ) (ls ms : List Bytes) → ls ≢ [] → grow_line b (ls ++ ms) ≡ grow_line b ls ++ ms
unfolding grow_line
grow_line-append b [] ms h = absurd (h refl)
grow_line-append b (l ∷ ls) ms h = refl

grow_line_some : (b : ℕ) (ls : List Bytes) → grow_line b ls ≢ []
unfolding grow_line
grow_line_some b [] = λ q. absurd (cc (q))
grow_line_some b (l ∷ ls) = λ q. absurd (cc (q))

scan_lines_some : (b : ℕ) (s : Bytes) → scan_lines (b ∷ s) ≢ []
unfolding scan_lines grow_line
scan_lines_some b s = elim (Bool-cases (b == 10)) [
  | inl nl ↦ rw nl (λ q. absurd (cc (q)))
  | inr other ↦ rw other (grow_line_some b (scan_lines s))
]

pub scan_lines-append :
    (s r : Bytes) → IsWhole s → scan_lines (s ++ r) ≡ scan_lines s ++ scan_lines r
unfolding scan_lines
scan_lines-append [] r w = refl
scan_lines-append (b ∷ []) r w = rw w refl
scan_lines-append (b ∷ c ∷ s) r w =
    let ih = scan_lines-append (c ∷ s) r w in
    elim (Bool-cases (b == 10)) [
      | inl nl ↦ rw nl (ap (λ l. [] ∷ l) ih)
      | inr other ↦ rw other (
          ap (grow_line b) ih
          ∙ grow_line-append b (scan_lines (c ∷ s)) (scan_lines r) (scan_lines_some c s))
    ]

scan_line :
    (text : Bytes)
    → All (λ b. (b ≢ 10) × (b ≢ 13)) text
    → scan_lines (text ++ (10 ∷ [])) ≡ text ∷ []
unfolding scan_lines grow_line
scan_line [] h = refl
scan_line (b ∷ s) (hb, h) = ground (arith, hb, scan_line s h)

pub drop_cr_lem : (text : Bytes) → All (λ b. (b ≢ 10) × (b ≢ 13)) text → drop_cr text ≡ text
unfolding drop_cr
drop_cr_lem [] h = refl
drop_cr_lem (b ∷ s) (hb, h) = ground (arith, hb, drop_cr_lem s h)

IsWhole-append : (s text : Bytes) → IsWhole (s ++ (text ++ (10 ∷ [])))
IsWhole-append [] [] = refl
IsWhole-append [] (b ∷ []) = refl
IsWhole-append [] (b ∷ c ∷ s) = IsWhole-append [] (c ∷ s)
IsWhole-append (b ∷ []) [] = refl
IsWhole-append (b ∷ []) (c ∷ s) = IsWhole-append [] (c ∷ s)
IsWhole-append (b ∷ c ∷ s) text = IsWhole-append (c ∷ s) text

-- One more line behind the others.
line_step :
    (bs : List Block) (b : Block) (long empty : Bool) (o : Option Block)
    (r r' : Result StoreError (List Block))
    → ((front : List Block) → r ≡ ok front → r' ≡ ok (front ++ (b ∷ [])))
    → (if long then err line_too_long else if empty then r else load_line o r) ≡ ok bs
    → (if long then err line_too_long else if empty then r' else load_line o r')
      ≡ ok (bs ++ (b ∷ []))
unfolding load_line
line_step bs b true empty o r r' k q = absurd (cc (q))
line_step bs b false true o r r' k q = k bs q
line_step bs b false false none r r' k q = absurd (cc (q))
line_step bs b false false (some x) (err e) r' k q = absurd (cc (q))
line_step bs b false false (some x) (ok front) r' k q =
    let more = k front refl in
    let is : x ∷ front ≡ bs = cc (q) in rw more (ap (λ l. ok (l ++ (b ∷ []))) is)

module _ (json : BlockJson) where
  one_line :
      (text : Bytes) (ls : List Bytes) (b : Block)
      → IsLine text
      → json.unmarshal text ≡ some b
      → load_lines json (text ∷ ls) ≡ load_line (some b) (load_lines json ls)
  unfolding load_lines
  one_line text ls b line back =
      let same = drop_cr_lem text line.unbroken in
      let fits : leb max_line (length text) ≡ false = ground (arith, line.short) in
      let named : bytes_eq text [] ≡ false = ground (arith, bytes_eq→eq text [], line.some_text) in
      rw (same, fits, named, back) refl

  load_lines-append :
      (ls : List Bytes) (text : Bytes) (bs : List Block) (b : Block)
      → IsLine text
      → json.unmarshal text ≡ some b
      → load_lines json ls ≡ ok bs
      → load_lines json (ls ++ (text ∷ [])) ≡ ok (bs ++ (b ∷ []))
  unfolding load_lines load_line
  load_lines-append [] text bs b line back q =
      let is : [] ≡ bs = cc (q) in one_line text [] b line back ∙ ap (λ l. ok (l ++ (b ∷ []))) is
  load_lines-append (l ∷ ls) text bs b line back q =
      line_step bs b (leb max_line (length l)) (bytes_eq (drop_cr l) [])
        (json.unmarshal (drop_cr l)) (load_lines json ls) (load_lines json (ls ++ (text ∷ [])))
        (λ front e. load_lines-append ls text front b line back e) q

  -- A block whose JSON text reads back as the block and fits on a line (it is not empty, below the
  -- limit of the scanner, and has no line break), appended to a file of whole lines that loads: the
  -- file is one of whole lines afterwards, and loads as the blocks that it had and then the new
  -- one.
  pub load_blocks-append_block :
      (file out text : Bytes) (bs : List Block) (b : Block)
      → IsWhole file
      → load_blocks json file ≡ ok bs
      → json.marshal b ≡ some text
      → json.unmarshal text ≡ some b
      → IsLine text
      → append_block json file b ≡ ok out
      → IsWhole out × (load_blocks json out ≡ ok (bs ++ (b ∷ [])))
  unfolding load_blocks append_block
  load_blocks-append_block file out text bs b w q put back line done =
      let is : file ++ (text ++ (10 ∷ [])) ≡ out = ground (arith, put, done) in
      let lines : scan_lines (file ++ (text ++ (10 ∷ []))) ≡ scan_lines file ++ (text ∷ []) =
        scan_lines-append file (text ++ (10 ∷ [])) w
        ∙ ap (λ l. scan_lines file ++ l) (scan_line text line.unbroken) in
      (
        subst IsWhole is (IsWhole-append file text),
        ap (λ s. load_lines json (scan_lines s)) (sym is)
            ∙ ap (load_lines json) lines
            ∙ load_lines-append (scan_lines file) text bs b line back q,
      )
