-- ===== src/Miner/Kernel/Resumed.antt =====
-- The digest of the kernel is the one that `finish` makes of the midstate.
use blu_gold.Base.{
  ℕ, zero, suc, ◌+◌, ◌-◌, ◌*◌, ◌/◌, ◌%◌, ◌^◌, ◌≡◌, refl, sym, ap, ◌∙◌, subst, some, List, [], ◌∷◌,
  ◌++◌, Bytes, IsByte, All, All-append, All-take, All-drop, arith, length, take, drop, replicate,
  not, ◌||◌, ltb, ◌==◌, Bool-cases, inl, inr,
}
use blu_gold.Miner.Midstate.{
  u32_mod, Midstate, reverse_bytes, be_words, word_bytes, regs_words, set_word, sha256_k, expand,
  rounds, add_regs, compress, put_u64, put_at, last_block, build_midstate, nonce_words, finish,
}
use blu_gold.Miner.Midstate.Template.{zeros-IsByte, put_u64-IsByte}
use blu_gold.Miner.Kernel.{bswap32, kernel_block, kernel_digest}
use blu_gold.Miner.Kernel.Compare.{IsU32, be_words-IsU32}

word-of :
    (w : ℕ)
    → IsU32 w
    → ((w / 2 ^ 24 % 256 * 256 + w / 2 ^ 16 % 256) * 256 + w / 2 ^ 8 % 256) * 256 + w % 256 ≡ w
word-of w h = omega arith

be_words-word_bytes : (ws : List ℕ) → All IsU32 ws → be_words (word_bytes ws) ≡ ws
unfolding be_words word_bytes
be_words-word_bytes [] h = refl
be_words-word_bytes (w ∷ ws) (hw, h) =
    ap (λ v. v ∷ be_words (word_bytes ws)) (word-of w hw)
    ∙ ap (λ l. w ∷ l) (be_words-word_bytes ws h)

set_word-IsU32 : (i v : ℕ) (ws : List ℕ) → IsU32 v → All IsU32 ws → All IsU32 (set_word i v ws)
unfolding set_word
set_word-IsU32 i v [] hv h = tt
set_word-IsU32 zero v (w ∷ ws) hv (hw, h) = (hv, h)
set_word-IsU32 (suc i) v (w ∷ ws) hv (hw, h) = (hw, set_word-IsU32 i v ws hv h)

bswap32-reverse_bytes : (x : ℕ) → bswap32 x ≡ reverse_bytes x
bswap32-reverse_bytes x = omega arith

bswap32-IsU32 : (x : ℕ) → IsU32 (bswap32 x)
bswap32-IsU32 x = omega arith

module _ (mid : Midstate) (nonce : ℕ) (words : All IsU32 mid.block) where
  kernel_block-IsU32 : All IsU32 (kernel_block mid nonce)
  unfolding kernel_block
  kernel_block-IsU32 =
      set_word-IsU32 (mid.nonce_word + 1) _ _ (bswap32-IsU32 (nonce / 2 ^ 32 % u32_mod))
        (set_word-IsU32 mid.nonce_word _ _ (bswap32-IsU32 (nonce % u32_mod)) words)

  resumed : List ℕ
  resumed =
      set_word (mid.nonce_word + 1) (nonce_words nonce).1
        (set_word mid.nonce_word (nonce_words nonce).0 mid.block)

  kernel_block-resumed : kernel_block mid nonce ≡ resumed
  unfolding kernel_block resumed nonce_words
  kernel_block-resumed =
      ap
        (λ v.
          set_word (mid.nonce_word + 1) v
            (set_word mid.nonce_word (bswap32 (nonce % u32_mod)) mid.block))
        (bswap32-reverse_bytes (nonce / 2 ^ 32 % u32_mod))
      ∙ ap
          (λ v.
            set_word (mid.nonce_word + 1) (reverse_bytes (nonce / 2 ^ 32 % u32_mod))
              (set_word mid.nonce_word v mid.block))
          (bswap32-reverse_bytes (nonce % u32_mod))

  pub kernel_digest-finish : word_bytes (regs_words (kernel_digest mid nonce)) ≡ finish nonce mid
  unfolding kernel_digest finish compress resumed
  kernel_digest-finish =
      ap
        (λ l.
          word_bytes (regs_words (add_regs mid.state (rounds sha256_k (expand 48 l) mid.state))))
        (sym (be_words-word_bytes (kernel_block mid nonce) kernel_block-IsU32)
          ∙ ap (λ l. be_words (word_bytes l)) kernel_block-resumed)

  pub length-kernel_digest : length (regs_words (kernel_digest mid nonce)) ≡ 8
  length-kernel_digest = refl

  pub kernel_digest-IsU32 : All IsU32 (regs_words (kernel_digest mid nonce))
  unfolding kernel_digest
  kernel_digest-IsU32 = omega arith

put_at-IsByte :
    (i : ℕ) (bs block : Bytes) → All IsByte bs → All IsByte block → All IsByte (put_at i bs block)
put_at-IsByte i bs block hb h =
    All-append IsByte (take i block ++ bs) (drop (i + length bs) block)
      (All-append IsByte (take i block) bs (All-take IsByte i block h) hb)
      (All-drop IsByte (i + length bs) block h)

last_block-IsByte :
    (rem : ℕ) (tail : Bytes) (len : ℕ) → All IsByte tail → All IsByte (last_block rem tail len)
unfolding last_block
last_block-IsByte rem tail len h =
    put_at-IsByte 56 (put_u64 (len * 8))
      (put_at (rem + 8) (0x80 ∷ []) (put_at 0 (take rem tail) (replicate 64 0)))
      (put_u64-IsByte (len * 8))
      (put_at-IsByte (rem + 8) (0x80 ∷ []) (put_at 0 (take rem tail) (replicate 64 0)) (omega arith)
        (put_at-IsByte 0 (take rem tail) (replicate 64 0) (All-take IsByte rem tail h)
          (zeros-IsByte 64)))

-- The template of a header has words.
pub build_midstate-IsU32 :
    (hdr : Bytes) (mid : Midstate)
    → All IsByte hdr
    → build_midstate hdr ≡ some mid
    → All IsU32 mid.block
unfolding build_midstate
build_midstate-IsU32 hdr mid h q =
    let prefix_len = length hdr - 8 in
    let full = prefix_len / 64 in
    let rem = prefix_len % 64 in
    let words = be_words-IsU32 (last_block rem (drop (full * 64) hdr) (length hdr)) (
      last_block-IsByte rem (drop (full * 64) hdr) (length hdr)
        (All-drop IsByte (full * 64) hdr h)) in
    elim (Bool-cases (ltb (length hdr) 8)) [
      | inl short ↦ let e = rw short at q in cc
      | inr long ↦ elim (Bool-cases (not (rem % 4 == 0) || ltb 64 (rem + 8 + 1 + 8))) [
        | inl no_room ↦ let e = rw (long, no_room) at q in cc
        | inr room ↦ let e = rw (long, room) at q in subst (λ (l : List ℕ). All IsU32 l) (cc) words
      ]
    ]
