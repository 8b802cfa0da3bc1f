-- ===== src/Miner/Midstate/Words.antt =====
-- Words and their bytes.
use blu_gold.Base.{
  ℕ, zero, suc, ◌*◌, ◌/◌, ◌%◌, ◌^◌, ◌≡◌, refl, ap, ◌∙◌, List, [], ◌∷◌, ◌++◌, Bytes, IsByte, All,
  arith, length,
}
use blu_gold.Chain.Codec.{le_bytes}
use blu_gold.Miner.Midstate.{
  u32_mod, reverse_bytes, word, put_u32, be_words, word_bytes, set_word, nonce_words,
}

cons4 :
    {a a' b b' c c' d d' : ℕ} (r : Bytes)
    → a ≡ a'
    → b ≡ b'
    → c ≡ c'
    → d ≡ d'
    → ◌≡◌ {A = Bytes} (a ∷ b ∷ c ∷ d ∷ r) (a' ∷ b' ∷ c' ∷ d' ∷ r)
cons4 r p q s t = cc

pub put_u32-word :
    (a b c d : ℕ)
    → IsByte a
    → IsByte b
    → IsByte c
    → IsByte d
    → put_u32 (word a b c d) ≡ a ∷ b ∷ c ∷ d ∷ []
put_u32-word a b c d ha hb hc hd = cons4 [] (omega arith) (omega arith) (omega arith) (omega arith)

-- Whole words can be read in two parts.
pub be_words-append :
    (k : ℕ) (xs ys : Bytes) → length xs ≡ 4 * k → be_words (xs ++ ys) ≡ be_words xs ++ be_words ys
unfolding be_words
be_words-append zero [] ys h = refl
be_words-append zero (a ∷ xs) ys h = absurd (omega (arith, h))
be_words-append (suc k) (a ∷ b ∷ c ∷ d ∷ xs) ys h =
    ap (λ l. word a b c d ∷ l) (be_words-append k xs ys (omega (arith, h)))
be_words-append (suc k) [] ys h = absurd (omega (arith, h))
be_words-append (suc k) (a ∷ []) ys h = absurd (omega (arith, h))
be_words-append (suc k) (a ∷ b ∷ []) ys h = absurd (omega (arith, h))
be_words-append (suc k) (a ∷ b ∷ c ∷ []) ys h = absurd (omega (arith, h))

pub length-be_words : (k : ℕ) (xs : Bytes) → length xs ≡ 4 * k → length (be_words xs) ≡ k
unfolding be_words
length-be_words zero [] h = refl
length-be_words zero (a ∷ xs) h = absurd (omega (arith, h))
length-be_words (suc k) (a ∷ b ∷ c ∷ d ∷ xs) h =
    omega (arith, length-be_words k xs (omega (arith, h)))
length-be_words (suc k) [] h = absurd (omega (arith, h))
length-be_words (suc k) (a ∷ []) h = absurd (omega (arith, h))
length-be_words (suc k) (a ∷ b ∷ []) h = absurd (omega (arith, h))
length-be_words (suc k) (a ∷ b ∷ c ∷ []) h = absurd (omega (arith, h))

pub word_bytes-be_words :
    (k : ℕ) (xs : Bytes) → length xs ≡ 4 * k → All IsByte xs → word_bytes (be_words xs) ≡ xs
unfolding be_words word_bytes
word_bytes-be_words zero [] h bs = refl
word_bytes-be_words zero (a ∷ xs) h bs = absurd (omega (arith, h))
word_bytes-be_words (suc k) (a ∷ b ∷ c ∷ d ∷ xs) h (ha, (hb, (hc, (hd, bs)))) =
    ap (λ l. l ++ word_bytes (be_words xs)) (put_u32-word a b c d ha hb hc hd)
    ∙ ap (λ l. a ∷ b ∷ c ∷ d ∷ l) (word_bytes-be_words k xs (omega (arith, h)) bs)
word_bytes-be_words (suc k) [] h bs = absurd (omega (arith, h))
word_bytes-be_words (suc k) (a ∷ []) h bs = absurd (omega (arith, h))
word_bytes-be_words (suc k) (a ∷ b ∷ []) h bs = absurd (omega (arith, h))
word_bytes-be_words (suc k) (a ∷ b ∷ c ∷ []) h bs = absurd (omega (arith, h))

pub word_bytes-append : (xs ys : List ℕ) → word_bytes (xs ++ ys) ≡ word_bytes xs ++ word_bytes ys
unfolding word_bytes
word_bytes-append [] ys = refl
word_bytes-append (v ∷ xs) ys = ap (λ l. put_u32 v ++ l) (word_bytes-append xs ys)

-- The two words behind `xs` are replaced.
pub set_words :
    (xs ys : List ℕ) (u v lo hi : ℕ)
    → set_word (suc (length xs)) hi (set_word (length xs) lo (xs ++ (u ∷ v ∷ ys)))
      ≡ xs ++ (lo ∷ hi ∷ ys)
unfolding set_word
set_words [] ys u v lo hi = refl
set_words (x ∷ xs) ys u v lo hi = ap (λ l. x ∷ l) (set_words xs ys u v lo hi)

bytes_of-reverse :
    (x a b c d : ℕ)
    → x % 256 ≡ a
    → x / 2 ^ 8 % 256 ≡ b
    → x / 2 ^ 16 % 256 ≡ c
    → x / 2 ^ 24 % 256 ≡ d
    → put_u32 (reverse_bytes x) ≡ a ∷ b ∷ c ∷ d ∷ []
bytes_of-reverse x a b c d p q s t =
    put_u32-word (x % 256) (x / 2 ^ 8 % 256) (x / 2 ^ 16 % 256) (x / 2 ^ 24 % 256) (omega arith)
      (omega arith) (omega arith) (omega arith)
    ∙ cons4 [] p q s t

-- The words of a nonce have the bytes that the header has.
pub nonce_bytes :
    (nonce : ℕ) → put_u32 (nonce_words nonce).0 ++ put_u32 (nonce_words nonce).1 ≡ le_bytes 8 nonce
unfolding nonce_words le_bytes
nonce_bytes nonce =
    let low =
      bytes_of-reverse (nonce % u32_mod) (nonce % 256) (nonce / 256 % 256) (nonce / 256 / 256 % 256)
        (nonce / 256 / 256 / 256 % 256) (omega arith) (omega arith) (omega arith) (omega arith) in
    let high =
      bytes_of-reverse (nonce / 2 ^ 32 % u32_mod) (nonce / 256 / 256 / 256 / 256 % 256)
        (nonce / 256 / 256 / 256 / 256 / 256 % 256)
        (nonce / 256 / 256 / 256 / 256 / 256 / 256 % 256)
        (nonce / 256 / 256 / 256 / 256 / 256 / 256 / 256 % 256) (omega arith) (omega arith)
        (omega arith) (omega arith) in
    ap (λ l. l ++ put_u32 (nonce_words nonce).1) low
    ∙ ap
        (λ l.
          (nonce % 256)
          ∷ (nonce / 256 % 256)
          ∷ (nonce / 256 / 256 % 256)
          ∷ (nonce / 256 / 256 / 256 % 256)
          ∷ l)
        high
