-- ===== src/Miner/Midstate/Equal.antt =====
-- A hash that resumes from the midstate is the hash of the whole header.
use blu_gold.Base.{
  ℕ, suc, ◌+◌, ◌-◌, ◌*◌, ◌/◌, ◌%◌, ◌≤◌, ◌≡◌, refl, sym, ap, ◌∙◌, some, [], ◌∷◌, ◌++◌, Bytes, IsByte,
  All, All-drop, arith, length, length-append, length-take, length-drop, take-append-drop, take,
  drop, replicate,
}
use mathlib.Core.List.{append_assoc, append-nil}
use blu_gold.Chain.Codec.{le_bytes}
use blu_gold.Chain.Codec.Injective.{length-le_bytes}
use blu_gold.Miner.Midstate.{
  Regs, Midstate, put_u64, word_bytes, regs_words, be_words, set_word, sha256_iv, compress,
  compress_all, last_block, nonce_words, build_midstate, finish,
}
use blu_gold.Miner.Midstate.Blocks.{take-append, drop-append, compress_all-append}
use blu_gold.Miner.Midstate.Template.{ending, last_block-lay, template_bytes, length-ending}
use blu_gold.Miner.Midstate.Hash.{pad, sha256_of}

-- One whole block.
one_block : (b : Bytes) (h : Regs) → length b ≡ 64 → compress_all 1 b h ≡ compress b h
unfolding compress_all
one_block b h q =
    ap (λ l. compress (take 64 l) h) (sym (append-nil b))
    ∙ ap (λ l. compress l h) (take-append 64 b [] q)

-- A compression of whole blocks does not read what follows them.
whole_only :
    (whole rest : Bytes) (full : ℕ)
    → length whole ≡ 64 * full
    → compress_all full (whole ++ rest) sha256_iv ≡ compress_all full whole sha256_iv
unfolding compress_all
whole_only whole rest full aligned =
    let same : full ≡ full + 0 = omega arith in
    ap (λ j. compress_all j (whole ++ rest) sha256_iv) same
    ∙ compress_all-append full 0 whole rest sha256_iv aligned

digest : Bytes → Regs → Bytes
digest block h = word_bytes (regs_words (compress block h))

-- A header as whole blocks, the bytes behind them, and the nonce.
module _ (whole t : Bytes) (full k : ℕ) (aligned : length whole ≡ 64 * full)
    (size : length t ≡ 4 * k) (room : 4 * k ≤ 47) where
  abbrev size_of : ℕ
  size_of = 64 * full + 4 * k + 8

  pad-lay :
      (n : Bytes)
      → length n ≡ 8
      → pad (whole ++ (t ++ n)) ≡ whole ++ (t ++ (n ++ ending (4 * k) size_of))
  unfolding pad
  pad-lay n eight =
      let long : length (whole ++ (t ++ n)) ≡ size_of =
        omega (arith, length-append whole (t ++ n), length-append t n, aligned, size, eight) in
      let left : (119 - size_of % 64) % 64 ≡ 47 - 4 * k = omega (arith, room) in
      ap
        (λ j.
          (whole ++ (t ++ n)) ++ ((0x80 ∷ replicate ((119 - j % 64) % 64) 0) ++ put_u64 (j * 8)))
        long
      ∙ ap (λ j. (whole ++ (t ++ n)) ++ ((0x80 ∷ replicate j 0) ++ put_u64 (size_of * 8))) left
      ∙ append_assoc whole (t ++ n) (ending (4 * k) size_of)
      ∙ ap (λ l. whole ++ l) (append_assoc t n (ending (4 * k) size_of))

  sha256_of-lay :
      (n : Bytes)
      → length n ≡ 8
      → sha256_of (whole ++ (t ++ n))
        ≡ word_bytes (
            regs_words
              (compress (t ++ (n ++ ending (4 * k) size_of)) (compress_all full whole sha256_iv)))
  unfolding sha256_of
  sha256_of-lay n eight =
      let block = t ++ (n ++ ending (4 * k) size_of) in
      let last : length block ≡ 64 = omega (
        arith,
        length-append t (n ++ ending (4 * k) size_of),
        length-append n (ending (4 * k) size_of),
        length-ending t size_of (4 * k) size room,
        size,
        eight,
        room,
      ) in
      let count : length (whole ++ block) / 64 ≡ full + 1 =
        omega (arith, length-append whole block, aligned, last) in
      ap (λ l. word_bytes (regs_words (compress_all (length l / 64) l sha256_iv))) (pad-lay n eight)
      ∙ ap (λ j. word_bytes (regs_words (compress_all j (whole ++ block) sha256_iv))) count
      ∙ ap (λ r. word_bytes (regs_words r))
          (compress_all-append full 1 whole block sha256_iv aligned
            ∙ one_block block (compress_all full whole sha256_iv) last)

  -- The midstate of a header, with any nonce in it.
  midstate : Bytes → Midstate
  midstate n = record {
    state = compress_all full (whole ++ (t ++ n)) sha256_iv;
    block = be_words (last_block (4 * k) (t ++ n) size_of);
    nonce_word = k;
  }

  finish-lay :
      (old : Bytes) (nonce : ℕ)
      → All IsByte t
      → finish nonce (midstate old) ≡ sha256_of (whole ++ (t ++ le_bytes 8 nonce))
  unfolding finish midstate digest
  finish-lay old nonce bytes =
      let next : k + 1 ≡ suc k = omega arith in
      ap
        (λ r.
          digest
            (word_bytes (
              set_word (k + 1) hi
                (set_word k lo (be_words (last_block (4 * k) (t ++ old) size_of)))))
            r)
        (whole_only whole (t ++ old) full aligned)
      ∙ ap
          (λ j.
            digest
              (word_bytes
                (set_word j hi (set_word k lo (be_words (last_block (4 * k) (t ++ old) size_of)))))
              state)
          next
      ∙ ap (λ l. digest (word_bytes (set_word (suc k) hi (set_word k lo (be_words l)))) state)
          (last_block-lay t size_of (4 * k) size room old)
      ∙ ap (λ l. digest l state) (template_bytes t size_of (4 * k) size room k nonce bytes refl)
      ∙ sym (sha256_of-lay (le_bytes 8 nonce) (length-le_bytes 8 nonce))
    where
      lo : ℕ
      lo = (nonce_words nonce).0

      hi : ℕ
      hi = (nonce_words nonce).1

      state : Regs
      state = compress_all full whole sha256_iv

-- `buildMidstate` takes a header where the nonce falls on a word and leaves room for the padding.
abbrev pub HasRoom : ℕ → Type 0
HasRoom len = (8 ≤ len) × ((len - 8) % 64 % 4 ≡ 0) × ((len - 8) % 64 ≤ 47)

template : Bytes → Bytes → ℕ → ℕ → ℕ → ℕ → Midstate
template hdr tail len full rem k = record {
  state = compress_all full hdr sha256_iv;
  block = be_words (last_block rem tail len);
  nonce_word = k;
}

template-same :
    {hdr hdr' tail tail' : Bytes} {len len' full full' rem rem' k k' : ℕ}
    → hdr ≡ hdr'
    → tail ≡ tail'
    → len ≡ len'
    → full ≡ full'
    → rem ≡ rem'
    → k ≡ k'
    → template hdr tail len full rem k ≡ template hdr' tail' len' full' rem' k'
template-same p q r s t u = cc

build_midstate_room :
    (hdr : Bytes)
    → HasRoom (length hdr)
    → build_midstate hdr
      ≡ some (
          template hdr
            (drop ((length hdr - 8) / 64 * 64) hdr)
            (length hdr)
            ((length hdr - 8) / 64)
            ((length hdr - 8) % 64)
            ((length hdr - 8) % 64 / 4))
unfolding build_midstate template
build_midstate_room hdr room = ground (arith, room)

-- Behind `buildMidstate` of any header with room, for any nonce: `finish` gives the hash of the
-- header with that nonce in its last 8 bytes.
pub finish-sha256_of :
    (before old : Bytes) (nonce : ℕ)
    → All IsByte before
    → length old ≡ 8
    → HasRoom (length (before ++ old))
    → (mid : Midstate) × (build_midstate (before ++ old) ≡ some mid)
      × (finish nonce mid ≡ sha256_of (before ++ le_bytes 8 nonce))
unfolding template midstate
finish-sha256_of before old nonce bytes eight room = (
  midstate whole t full k aligned size low old,
  build_midstate_room (before ++ old) room ∙ ap some same,
  finish-lay whole t full k aligned size low old nonce (All-drop IsByte (64 * full) before bytes)
      ∙ ap sha256_of (sym (laid (le_bytes 8 nonce))),
)
  where
    len : length (before ++ old) ≡ length before + 8
    len = omega (arith, length-append before old, eight)

    full : ℕ
    full = length before / 64

    k : ℕ
    k = length before % 64 / 4

    whole : Bytes
    whole = take (64 * full) before

    t : Bytes
    t = drop (64 * full) before

    aligned : length whole ≡ 64 * full
    aligned = omega (arith, length-take (64 * full) before)

    four : length before % 64 ≡ 4 * k
    four = omega (arith, room, len)

    size : length t ≡ 4 * k
    size = omega (arith, length-drop (64 * full) before, four)

    low : 4 * k ≤ 47
    low = omega (arith, room, len, four)

    laid : (n : Bytes) → before ++ n ≡ whole ++ (t ++ n)
    laid n = ap (λ l. l ++ n) (sym (take-append-drop (64 * full) before)) ∙ append_assoc whole t n

    behind : drop ((length (before ++ old) - 8) / 64 * 64) (before ++ old) ≡ t ++ old
    behind =
        let place : (length (before ++ old) - 8) / 64 * 64 ≡ 64 * full = omega (arith, len) in
        ap (λ j. drop j (before ++ old)) place
        ∙ ap (λ l. drop (64 * full) l) (laid old)
        ∙ drop-append (64 * full) whole (t ++ old) aligned

    same :
        template
          (before ++ old)
          (drop ((length (before ++ old) - 8) / 64 * 64) (before ++ old))
          (length (before ++ old))
          ((length (before ++ old) - 8) / 64)
          ((length (before ++ old) - 8) % 64)
          ((length (before ++ old) - 8) % 64 / 4)
        ≡ midstate whole t full k aligned size low old
    same =
        template-same (laid old) behind (omega (arith, len, four)) (omega (arith, len))
          (omega (arith, len, four)) (omega (arith, len))
