-- ===== src/Miner/Midstate.antt =====
-- internal/miner/sha256mid.go: the compression function of SHA-256, and a hash that resumes behind
-- the part of a header that no nonce changes.
pub mod Words
pub mod Blocks
pub mod Hash
pub mod Template
pub mod Equal
pub mod Header
use Prim.Native.Nat.{bit_and, bit_xor}
use blu_gold.Base.{
  ℕ, zero, suc, ◌+◌, ◌-◌, ◌*◌, ◌/◌, ◌%◌, ◌^◌, not, ◌||◌, Option, none, some, List, [], ◌∷◌, ◌++◌,
  Bytes, length, take, drop, replicate, ltb, ◌==◌, if◌then◌else◌,
}

abbrev pub u32_mod : ℕ
u32_mod = 2 ^ 32

-- `bits.RotateLeft32(x, -k)`
unfoldable pub rotate_right : ℕ → ℕ → ℕ
rotate_right x k = (x / 2 ^ k + x * 2 ^ (32 - k)) % u32_mod

-- `^x`
abbrev pub not_u32 : ℕ → ℕ
not_u32 x = u32_mod - 1 - x

-- `binary.BigEndian.Uint32`
abbrev pub word : ℕ → ℕ → ℕ → ℕ → ℕ
word a b c d = ((a * 256 + b) * 256 + c) * 256 + d

-- `binary.BigEndian.PutUint32`
abbrev pub put_u32 : ℕ → Bytes
put_u32 v = (v / 2 ^ 24 % 256) ∷ (v / 2 ^ 16 % 256) ∷ (v / 2 ^ 8 % 256) ∷ (v % 256) ∷ []

-- `binary.BigEndian.PutUint64`
abbrev pub put_u64 : ℕ → Bytes
put_u64 v = put_u32 (v / 2 ^ 32) ++ put_u32 v

-- The words of a run of bytes, and back.
unfoldable pub be_words : Bytes → List ℕ
be_words (a ∷ b ∷ c ∷ d ∷ rest) = word a b c d ∷ be_words rest
be_words _ = []

unfoldable pub word_bytes : List ℕ → Bytes
word_bytes [] = []
word_bytes (v ∷ words) = put_u32 v ++ word_bytes words

-- `words[i]`, and `words[i] = v`
unfoldable pub word_at : ℕ → List ℕ → ℕ
word_at i [] = 0
word_at zero (v ∷ words) = v
word_at (suc i) (v ∷ words) = word_at i words

unfoldable pub set_word : ℕ → ℕ → List ℕ → List ℕ
set_word i v [] = []
set_word zero v (w ∷ words) = v ∷ words
set_word (suc i) v (w ∷ words) = w ∷ set_word i v words

abbrev pub sha256_k : List ℕ
sha256_k =
    0x428a2f98 ∷ 0x71374491 ∷ 0xb5c0fbcf ∷ 0xe9b5dba5 ∷ 0x3956c25b ∷ 0x59f111f1 ∷ 0x923f82a4
    ∷ 0xab1c5ed5 ∷ 0xd807aa98 ∷ 0x12835b01 ∷ 0x243185be ∷ 0x550c7dc3 ∷ 0x72be5d74 ∷ 0x80deb1fe
    ∷ 0x9bdc06a7 ∷ 0xc19bf174 ∷ 0xe49b69c1 ∷ 0xefbe4786 ∷ 0x0fc19dc6 ∷ 0x240ca1cc ∷ 0x2de92c6f
    ∷ 0x4a7484aa ∷ 0x5cb0a9dc ∷ 0x76f988da ∷ 0x983e5152 ∷ 0xa831c66d ∷ 0xb00327c8 ∷ 0xbf597fc7
    ∷ 0xc6e00bf3 ∷ 0xd5a79147 ∷ 0x06ca6351 ∷ 0x14292967 ∷ 0x27b70a85 ∷ 0x2e1b2138 ∷ 0x4d2c6dfc
    ∷ 0x53380d13 ∷ 0x650a7354 ∷ 0x766a0abb ∷ 0x81c2c92e ∷ 0x92722c85 ∷ 0xa2bfe8a1 ∷ 0xa81a664b
    ∷ 0xc24b8b70 ∷ 0xc76c51a3 ∷ 0xd192e819 ∷ 0xd6990624 ∷ 0xf40e3585 ∷ 0x106aa070 ∷ 0x19a4c116
    ∷ 0x1e376c08 ∷ 0x2748774c ∷ 0x34b0bcb5 ∷ 0x391c0cb3 ∷ 0x4ed8aa4a ∷ 0x5b9cca4f ∷ 0x682e6ff3
    ∷ 0x748f82ee ∷ 0x78a5636f ∷ 0x84c87814 ∷ 0x8cc70208 ∷ 0x90befffa ∷ 0xa4506ceb ∷ 0xbef9a3f7
    ∷ 0xc67178f2 ∷ []

-- The eight words of the state, and `a` to `hh` of the rounds.
pub record Regs : Type 0 where
  pub a : ℕ
  pub b : ℕ
  pub c : ℕ
  pub d : ℕ
  pub e : ℕ
  pub f : ℕ
  pub g : ℕ
  pub h : ℕ

abbrev pub sha256_iv : Regs
sha256_iv = record {
  a = 0x6a09e667;
  b = 0xbb67ae85;
  c = 0x3c6ef372;
  d = 0xa54ff53a;
  e = 0x510e527f;
  f = 0x9b05688c;
  g = 0x1f83d9ab;
  h = 0x5be0cd19;
}

-- `w[i]` for the next `i`.
unfoldable pub next_word : List ℕ → ℕ
next_word w =
    let i = length w in
    let x = word_at (i - 15) w in
    let y = word_at (i - 2) w in
    let s0 = bit_xor (bit_xor (rotate_right x 7) (rotate_right x 18)) (x / 2 ^ 3) in
    let s1 = bit_xor (bit_xor (rotate_right y 17) (rotate_right y 19)) (y / 2 ^ 10) in
    (word_at (i - 16) w + s0 + word_at (i - 7) w + s1) % u32_mod

unfoldable pub expand : ℕ → List ℕ → List ℕ
expand zero w = w
expand (suc k) w = expand k (w ++ (next_word w ∷ []))

-- One round, for a constant and a word.
unfoldable pub round : ℕ → ℕ → Regs → Regs
round k w r =
    let s1 = bit_xor (bit_xor (rotate_right r.e 6) (rotate_right r.e 11)) (rotate_right r.e 25) in
    let ch = bit_xor (bit_and r.e r.f) (bit_and (not_u32 r.e) r.g) in
    let t1 = (r.h + s1 + ch + k + w) % u32_mod in
    let s0 = bit_xor (bit_xor (rotate_right r.a 2) (rotate_right r.a 13)) (rotate_right r.a 22) in
    let maj = bit_xor (bit_xor (bit_and r.a r.b) (bit_and r.a r.c)) (bit_and r.b r.c) in
    let t2 = (s0 + maj) % u32_mod in
    record {
      a = (t1 + t2) % u32_mod;
      b = r.a;
      c = r.b;
      d = r.c;
      e = (r.d + t1) % u32_mod;
      f = r.e;
      g = r.f;
      h = r.g;
    }

unfoldable pub rounds : List ℕ → List ℕ → Regs → Regs
rounds [] ws r = r
rounds (k ∷ ks) [] r = r
rounds (k ∷ ks) (w ∷ ws) r = rounds ks ws (round k w r)

abbrev pub add_regs : Regs → Regs → Regs
add_regs x y = record {
  a = (x.a + y.a) % u32_mod;
  b = (x.b + y.b) % u32_mod;
  c = (x.c + y.c) % u32_mod;
  d = (x.d + y.d) % u32_mod;
  e = (x.e + y.e) % u32_mod;
  f = (x.f + y.f) % u32_mod;
  g = (x.g + y.g) % u32_mod;
  h = (x.h + y.h) % u32_mod;
}

-- `sha256Compress`
unfoldable pub compress : Bytes → Regs → Regs
compress block h = add_regs h (rounds sha256_k (expand 48 (be_words block)) h)

-- The loop of `buildMidstate` over whole blocks.
unfoldable pub compress_all : ℕ → Bytes → Regs → Regs
compress_all zero bs h = h
compress_all (suc k) bs h = compress_all k (drop 64 bs) (compress (take 64 bs) h)

abbrev pub regs_words : Regs → List ℕ
regs_words r = r.a ∷ r.b ∷ r.c ∷ r.d ∷ r.e ∷ r.f ∷ r.g ∷ r.h ∷ []

-- `gpuMidstate`
pub record Midstate : Type 0 where
  pub state : Regs
  pub block : List ℕ
  pub nonce_word : ℕ

-- `copy(block[i:], bs)`
abbrev pub put_at : ℕ → Bytes → Bytes → Bytes
put_at i bs block = take i block ++ bs ++ drop (i + length bs) block

-- The last block, with room for the nonce behind the `rem` bytes of the header's prefix.
unfoldable pub last_block : ℕ → Bytes → ℕ → Bytes
last_block rem tail len =
    put_at 56 (put_u64 (len * 8))
      (put_at (rem + 8) (0x80 ∷ []) (put_at 0 (take rem tail) (replicate 64 0)))

-- `buildMidstate`
unfoldable pub build_midstate : Bytes → Option Midstate
build_midstate hdr =
    if ltb (length hdr) 8
    then none
    else (let prefix_len = length hdr - 8 in
        let full = prefix_len / 64 in
        let rem = prefix_len % 64 in
        if not (rem % 4 == 0) || ltb 64 (rem + 8 + 1 + 8)
        then none
        else some (record {
          state = compress_all full hdr sha256_iv;
          block = be_words (last_block rem (drop (full * 64) hdr) (length hdr));
          nonce_word = rem / 4;
        }))

-- `bits.ReverseBytes32`
abbrev pub reverse_bytes : ℕ → ℕ
reverse_bytes x = word (x % 256) (x / 2 ^ 8 % 256) (x / 2 ^ 16 % 256) (x / 2 ^ 24 % 256)

-- `nonceWords`
unfoldable pub nonce_words : ℕ → ℕ × ℕ
nonce_words nonce = (reverse_bytes (nonce % u32_mod), reverse_bytes (nonce / 2 ^ 32 % u32_mod))

-- `finish`
unfoldable pub finish : ℕ → Midstate → Bytes
finish nonce mid =
    let (lo, hi) = nonce_words nonce in
    let block = set_word (mid.nonce_word + 1) hi (set_word mid.nonce_word lo mid.block) in
    word_bytes (regs_words (compress (word_bytes block) mid.state))
