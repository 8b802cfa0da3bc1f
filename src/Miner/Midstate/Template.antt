-- ===== src/Miner/Midstate/Template.antt =====
-- The last block of a header: the template, and what a nonce makes of it.
use blu_gold.Base.{
  ℕ, zero, suc, ◌+◌, ◌-◌, ◌*◌, ◌≤◌, ◌≡◌, refl, sym, ap, ◌∙◌, List, [], ◌∷◌, ◌++◌, Bytes, IsByte,
  All, All-append, arith, length, length-append, length-replicate, drop, replicate,
}
use mathlib.Core.List.{append_assoc}
use blu_gold.Chain.Codec.{le_bytes}
use blu_gold.Miner.Midstate.{
  put_u64, be_words, word_bytes, set_word, put_at, last_block, nonce_words,
}
use blu_gold.Miner.Midstate.Words.{
  be_words-append, length-be_words, word_bytes-be_words, word_bytes-append, set_words, nonce_bytes,
}
use blu_gold.Miner.Midstate.Blocks.{take-append, drop-append, replicate-append}

put_at-append :
    (i : ℕ) (bs x y z : Bytes)
    → length x ≡ i
    → length y ≡ length bs
    → put_at i bs (x ++ (y ++ z)) ≡ x ++ (bs ++ z)
put_at-append i bs x y z at same =
    let both : (x ++ y) ++ z ≡ x ++ (y ++ z) = append_assoc x y z in
    let behind : drop (i + length bs) (x ++ (y ++ z)) ≡ z =
      ap (λ l. drop (i + length bs) l) (sym both)
      ∙ drop-append (i + length bs) (x ++ y) z (omega (arith, length-append x y)) in
    rw (take-append i x (y ++ z) at, behind) (append_assoc x bs z)

abbrev pub zeros : ℕ → Bytes
zeros n = replicate n 0

-- The end of a block behind the nonce: a one bit, zeros, and the length of the header in bits.
abbrev pub ending : ℕ → ℕ → Bytes
ending rem len = 0x80 ∷ (zeros (47 - rem) ++ put_u64 (len * 8))

pub zeros-IsByte : (n : ℕ) → All IsByte (zeros n)
zeros-IsByte zero = tt
zeros-IsByte (suc n) = (omega arith, zeros-IsByte n)

pub put_u64-IsByte : (v : ℕ) → All IsByte (put_u64 v)
put_u64-IsByte v = omega arith

module _ (t : Bytes) (len : ℕ) (rem : ℕ) (size : length t ≡ rem) (room : rem ≤ 47) where
  split_zeros : zeros 64 ≡ zeros rem ++ (zeros 8 ++ ((0 ∷ []) ++ (zeros (47 - rem) ++ zeros 8)))
  split_zeros =
      let whole : 64 ≡ rem + (8 + (1 + ((47 - rem) + 8))) = omega arith in
      ap zeros whole
      ∙ replicate-append rem (8 + (1 + ((47 - rem) + 8))) 0
      ∙ ap (λ l. zeros rem ++ l) (replicate-append 8 (1 + ((47 - rem) + 8)) 0)
      ∙ ap (λ l. zeros rem ++ (zeros 8 ++ l)) (replicate-append 1 ((47 - rem) + 8) 0)
      ∙ ap (λ l. zeros rem ++ (zeros 8 ++ ((0 ∷ []) ++ l))) (replicate-append (47 - rem) 8 0)

  mark : Bytes
  mark = (0x80 ∷ []) ++ zeros (47 - rem)

  front : Bytes
  front = t ++ zeros 8

  length-front : length front ≡ rem + 8
  unfolding front
  length-front = omega (arith, length-append t (zeros 8), size)

  length-mark : length mark ≡ 48 - rem
  unfolding mark
  length-mark =
      let long : length (zeros (47 - rem)) ≡ 47 - rem = length-replicate (47 - rem) 0 in
      omega (arith, long, room)

  pub last_block-lay : (n : Bytes) → last_block rem (t ++ n) len ≡ t ++ (zeros 8 ++ ending rem len)
  unfolding last_block mark front
  last_block-lay n =
      let size_rem : length (zeros rem) ≡ length t = length-replicate rem 0 ∙ sym size in
      ap (λ l. put_at 56 (put_u64 (len * 8)) (put_at (rem + 8) (0x80 ∷ []) (put_at 0 l (zeros 64))))
        (take-append rem t n size)
      ∙ ap (λ l. put_at 56 (put_u64 (len * 8)) (put_at (rem + 8) (0x80 ∷ []) (put_at 0 t l)))
          split_zeros
      ∙ ap (λ l. put_at 56 (put_u64 (len * 8)) (put_at (rem + 8) (0x80 ∷ []) l))
          (put_at-append 0 t [] (zeros rem) (zeros 8 ++ ((0 ∷ []) ++ (zeros (47 - rem) ++ zeros 8)))
              refl size_rem
            ∙ sym (append_assoc t (zeros 8) ((0 ∷ []) ++ (zeros (47 - rem) ++ zeros 8))))
      ∙ ap (λ l. put_at 56 (put_u64 (len * 8)) l)
          (put_at-append (rem + 8) (0x80 ∷ []) front (0 ∷ []) (zeros (47 - rem) ++ zeros 8)
              length-front refl
            ∙ sym (append_assoc front mark (zeros 8)))
      ∙ put_at-append 56 (put_u64 (len * 8)) (front ++ mark) (zeros 8) []
          (omega (arith, length-append front mark, length-front, length-mark, room)) refl
      ∙ append_assoc front mark (put_u64 (len * 8))
      ∙ append_assoc t (zeros 8) (ending rem len)

  ending-IsByte : All IsByte (ending rem len)
  ending-IsByte = (
    omega arith,
    All-append IsByte (zeros (47 - rem)) (put_u64 (len * 8)) (zeros-IsByte (47 - rem))
        (put_u64-IsByte (len * 8)),
  )

  pub length-ending : length (ending rem len) ≡ 56 - rem
  length-ending =
      let long : length (zeros (47 - rem)) ≡ 47 - rem = length-replicate (47 - rem) 0 in
      omega (arith, long, room, length-append (zeros (47 - rem)) (put_u64 (len * 8)))

  -- The template with the words of a nonce in it has the bytes of the nonce there.
  pub template_bytes :
      (k nonce : ℕ)
      → All IsByte t
      → rem ≡ 4 * k
      → word_bytes (
          set_word
            (suc k)
            (nonce_words nonce).1
            (set_word k (nonce_words nonce).0 (be_words (t ++ (zeros 8 ++ ending rem len)))))
        ≡ t ++ (le_bytes 8 nonce ++ ending rem len)
  unfolding be_words word_bytes
  template_bytes k nonce bytes four =
      ap (λ l. word_bytes (set_word (suc k) hi (set_word k lo l)))
        (be_words-append k t (zeros 8 ++ ending rem len) (size ∙ four))
      ∙ ap (λ j. word_bytes (set_word (suc j) hi (set_word j lo (be_words t ++ (0 ∷ 0 ∷ last)))))
          (sym (length-be_words k t (size ∙ four)))
      ∙ ap word_bytes (set_words (be_words t) last 0 0 lo hi)
      ∙ word_bytes-append (be_words t) (lo ∷ hi ∷ last)
      ∙ ap (λ l. l ++ word_bytes (lo ∷ hi ∷ last)) (word_bytes-be_words k t (size ∙ four) bytes)
      ∙ ap (λ l. t ++ (l ++ word_bytes last)) (nonce_bytes nonce)
      ∙ ap (λ l. t ++ (le_bytes 8 nonce ++ l))
          (word_bytes-be_words (14 - k) (ending rem len) (omega (arith, length-ending, four, room))
            ending-IsByte)
    where
      lo : ℕ
      lo = (nonce_words nonce).0

      hi : ℕ
      hi = (nonce_words nonce).1

      last : List ℕ
      last = be_words (ending rem len)
