-- ===== src/Miner/Midstate/Hash.antt =====
-- SHA-256 of a whole message: padding, blocks, digest.
use blu_gold.Base.{◌-◌, ◌*◌, ◌/◌, ◌%◌, ◌≡◌, refl, [], ◌∷◌, ◌++◌, Bytes, length, replicate}
use blu_gold.Miner.Midstate.{
  put_u64, sha256_iv, compress_all, regs_words, word_bytes, be_words, word_at, next_word, expand,
  rotate_right, round, rounds, compress,
}

-- The message, a one bit, zeros up to a whole number of blocks, and the length in bits.
unfoldable pub pad : Bytes → Bytes
pad m = m ++ ((0x80 ∷ replicate ((119 - length m % 64) % 64) 0) ++ put_u64 (length m * 8))

unfoldable pub sha256_of : Bytes → Bytes
sha256_of m = word_bytes (regs_words (compress_all (length (pad m) / 64) (pad m) sha256_iv))

-- The digest of "abc".
abc :
    be_words (sha256_of (97 ∷ 98 ∷ 99 ∷ []))
    ≡ 0xba7816bf ∷ 0x8f01cfea ∷ 0x414140de ∷ 0x5dae2223 ∷ 0xb00361a3 ∷ 0x96177a9c ∷ 0xb410ff61
      ∷ 0xf20015ad ∷ []
unfolding sha256_of pad compress_all compress word_bytes be_words word_at next_word expand
    rotate_right round rounds
abc = refl
