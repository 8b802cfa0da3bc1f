-- ===== src/Store.antt =====
-- internal/store/store.go: the file of blocks, one JSON text to a line. JSON is a parameter; the
-- file is its bytes.
pub mod RoundTrip
pub mod Torn
pub mod Peers
use blu_gold.Base.{
  ℕ, ◌*◌, Bool, ◌&&◌, Option, none, some, List, [], ◌∷◌, ◌++◌, Bytes, bytes_eq, length, leb, ◌==◌,
  if◌then◌else◌, Result, ok, err,
}
use blu_gold.Chain.Block.{Block}

-- `json.Marshal` and `json.Unmarshal` of a block; nothing where they fail.
pub record BlockJson : Type 0 where
  pub marshal : Block → Option Bytes
  pub unmarshal : Bytes → Option Block

pub data StoreError : Type 0 where
  not_json line_too_long corrupt_line : StoreError

-- The limit of `sc.Buffer`.
abbrev pub max_line : ℕ
max_line = 8 * 1024 * 1024

-- A byte in front of the first line.
unfoldable pub grow_line : ℕ → List Bytes → List Bytes
grow_line b [] = (b ∷ []) ∷ []
grow_line b (line ∷ lines) = (b ∷ line) ∷ lines

-- The lines of `bufio.ScanLines`, before a carriage return at their ends is cut off.
unfoldable pub scan_lines : Bytes → List Bytes
scan_lines [] = []
scan_lines (b ∷ s) = let rest = scan_lines s in if b == 10 then [] ∷ rest else grow_line b rest

-- `dropCR`
unfoldable pub drop_cr : Bytes → Bytes
drop_cr [] = []
drop_cr (b ∷ s) = let rest = drop_cr s in if b == 13 && bytes_eq s [] then [] else b ∷ rest

-- One line that is not empty, with the rest of the loop.
unfoldable pub load_line :
    Option Block → Result StoreError (List Block) → Result StoreError (List Block)
load_line none rest = err corrupt_line
load_line (some b) (err e) = err e
load_line (some b) (ok bs) = ok (b ∷ bs)

module _ (json : BlockJson) where
  -- `AppendBlock`, to a file that takes what it is given.
  unfoldable pub append_block : Bytes → Block → Result StoreError Bytes
  append_block file b = elim (json.marshal b) [
    | none ↦ err not_json
    | some text ↦ ok (file ++ (text ++ (10 ∷ [])))
  ]

  -- The loop of `LoadBlocks`.
  unfoldable pub load_lines : List Bytes → Result StoreError (List Block)
  load_lines [] = ok []
  load_lines (line ∷ lines) =
      let rest = load_lines lines in
      if leb max_line (length line)
      then err line_too_long
      else if bytes_eq (drop_cr line) []
      then rest
      else load_line (json.unmarshal (drop_cr line)) rest

  -- `LoadBlocks` of a file that is there.
  unfoldable pub load_blocks : Bytes → Result StoreError (List Block)
  load_blocks file = load_lines (scan_lines file)
