-- ===== src/Miner/Kernel/Compare.antt =====
-- Digest and target as words: the comparison of the kernel is that of the numbers.
use mathlib.Core.List.{foldl}
use blu_gold.Base.{
  ℕ, zero, suc, ◌+◌, ◌*◌, ◌/◌, ◌%◌, ◌^◌, ◌<◌, ◌≡◌, refl, sym, ap, ◌∙◌, List, [], ◌∷◌, ◌++◌, Bytes,
  IsByte, All, All-append, arith, length, length-append, ltb,
}
use blu_gold.Chain.Block.{be_number}
use blu_gold.Miner.Midstate.{u32_mod, be_words, word_bytes}
use blu_gold.Miner.Midstate.Words.{word_bytes-be_words, length-be_words}
use blu_gold.Miner.Target.{fill_bytes, target_words}
use blu_gold.Miner.Kernel.{words_less}

abbrev pub IsU32 : ℕ → Type 0
IsU32 v = v < u32_mod

bytes_from : ℕ → Bytes → ℕ
bytes_from = foldl (λ acc b. acc * 256 + b)

words_from : ℕ → List ℕ → ℕ
words_from acc [] = acc
words_from acc (w ∷ ws) = words_from (acc * u32_mod + w) ws

bytes_from-word_bytes :
    (acc : ℕ) (ws : List ℕ) → All IsU32 ws → bytes_from acc (word_bytes ws) ≡ words_from acc ws
unfolding bytes_from words_from word_bytes
bytes_from-word_bytes acc [] h = refl
bytes_from-word_bytes acc (w ∷ ws) (hw, h) =
    let next : (((acc * 256 + w / 2 ^ 24 % 256) * 256 + w / 2 ^ 16 % 256) * 256 + w / 2 ^ 8 % 256)
            * 256
          + w % 256
        ≡ acc * u32_mod + w =
      omega arith in
    ap (λ a. bytes_from a (word_bytes ws)) next ∙ bytes_from-word_bytes (acc * u32_mod + w) ws h

-- The front decides.
words_from-lt :
    (a b : ℕ) (xs ys : List ℕ)
    → a < b
    → length xs ≡ length ys
    → All IsU32 xs
    → words_from a xs < words_from b ys
unfolding words_from
words_from-lt a b [] [] lt q hx = lt
words_from-lt a b [] (y ∷ ys) lt q hx = absurd (omega (arith, q))
words_from-lt a b (x ∷ xs) [] lt q hx = absurd (omega (arith, q))
words_from-lt a b (x ∷ xs) (y ∷ ys) lt q (hx, hxs) =
    words_from-lt (a * u32_mod + x) (b * u32_mod + y) xs ys (omega arith) (omega (arith, q)) hxs

words_less-ltb :
    (acc : ℕ) (xs ys : List ℕ)
    → length xs ≡ length ys
    → All IsU32 xs
    → All IsU32 ys
    → words_less xs ys ≡ ltb (words_from acc xs) (words_from acc ys)
unfolding words_less words_from
words_less-ltb acc [] [] q hx hy = ground arith
words_less-ltb acc [] (y ∷ ys) q hx hy = absurd (omega (arith, q))
words_less-ltb acc (x ∷ xs) [] q hx hy = absurd (omega (arith, q))
words_less-ltb acc (x ∷ xs) (y ∷ ys) q (hx, hxs) (hy, hys) =
    let same : length xs ≡ length ys = omega (arith, q) in
    ground (
      arith,
      words_from-lt (acc * u32_mod + x) (acc * u32_mod + y) xs ys,
      words_from-lt (acc * u32_mod + y) (acc * u32_mod + x) ys xs,
      words_less-ltb (acc * u32_mod + x) xs ys,
    )

pub be_words-IsU32 : (bs : Bytes) → All IsByte bs → All IsU32 (be_words bs)
unfolding be_words
be_words-IsU32 (a ∷ b ∷ c ∷ d ∷ rest) (ha, (hb, (hc, (hd, h)))) =
    (omega arith, be_words-IsU32 rest h)
be_words-IsU32 [] h = tt
be_words-IsU32 (a ∷ []) h = tt
be_words-IsU32 (a ∷ b ∷ []) h = tt
be_words-IsU32 (a ∷ b ∷ c ∷ []) h = tt

length-fill_bytes : (k v : ℕ) → length (fill_bytes k v) ≡ k
unfolding fill_bytes
length-fill_bytes zero v = refl
length-fill_bytes (suc k) v =
    omega (
      arith,
      length-append (fill_bytes k (v / 256)) ((v % 256) ∷ []),
      length-fill_bytes k (v / 256),
    )

fill_bytes-IsByte : (k v : ℕ) → All IsByte (fill_bytes k v)
unfolding fill_bytes
fill_bytes-IsByte zero v = tt
fill_bytes-IsByte (suc k) v =
    All-append IsByte (fill_bytes k (v / 256)) ((v % 256) ∷ []) (fill_bytes-IsByte k (v / 256))
      (omega arith)

bytes_from-append :
    (acc : ℕ) (xs ys : Bytes) → bytes_from acc (xs ++ ys) ≡ bytes_from (bytes_from acc xs) ys
unfolding bytes_from
bytes_from-append acc [] ys = refl
bytes_from-append acc (x ∷ xs) ys = bytes_from-append (acc * 256 + x) xs ys

bytes_from-fill_bytes : (k v : ℕ) → v < 256 ^ k → bytes_from 0 (fill_bytes k v) ≡ v
unfolding bytes_from fill_bytes
bytes_from-fill_bytes zero v h = omega arith
bytes_from-fill_bytes (suc k) v h =
    let smaller : v / 256 < 256 ^ k = omega arith in
    bytes_from-append 0 (fill_bytes k (v / 256)) ((v % 256) ∷ [])
    ∙ ap (λ n. n * 256 + v % 256) (bytes_from-fill_bytes k (v / 256) smaller)
    ∙ omega arith

-- The kernel's comparison of eight words with those of a target is the comparison of the digest's
-- number with the target.
pub words_less-target_words :
    (ws : List ℕ) (t : ℕ)
    → length ws ≡ 8
    → All IsU32 ws
    → t < 2 ^ 256
    → words_less ws (target_words t) ≡ ltb (be_number (word_bytes ws)) t
unfolding target_words be_number bytes_from
words_less-target_words ws t eight h fits =
    let bs = fill_bytes 32 t in
    let long : length bs ≡ 4 * 8 = length-fill_bytes 32 t in
    let bytes = fill_bytes-IsByte 32 t in
    let words = be_words-IsU32 bs bytes in
    let number : words_from 0 (be_words bs) ≡ t =
      sym (bytes_from-word_bytes 0 (be_words bs) words)
      ∙ ap (bytes_from 0) (word_bytes-be_words 8 bs long bytes)
      ∙ bytes_from-fill_bytes 32 t fits in
    words_less-ltb 0 ws (be_words bs) (eight ∙ sym (length-be_words 8 bs long)) h words
    ∙ ap (ltb (words_from 0 ws)) number
    ∙ ap (λ n. ltb n t) (sym (bytes_from-word_bytes 0 ws h))
