-- ===== src/Miner/Midstate/Header.antt =====
-- The midstate of a block's header.
use blu_gold.Base.{
  ℕ, ◌+◌, ◌≡◌, some, [], ◌++◌, Bytes, IsByte, All, All-append, arith, length, length-append,
}
use blu_gold.Base.Int.{to_u64}
use blu_gold.Crypto.{addr_length}
use blu_gold.Chain.Codec.{le_bytes, write_u64, write_i64, write_string, write_bytes}
use blu_gold.Chain.Codec.Injective.{length-le_bytes, le_bytes-IsByte}
use blu_gold.Chain.Block.{Block, header_bytes}
use blu_gold.Miner.Midstate.{Midstate, build_midstate, finish}
use blu_gold.Miner.Midstate.Hash.{sha256_of}
use blu_gold.Miner.Midstate.Equal.{finish-sha256_of}

-- A block whose hashes have 32 bytes and whose miner has the length of an address.
pub record IsMinable (b : Block) : Type 0 where
  pub prev_bytes : All IsByte b.prev_hash
  pub prev_length : length b.prev_hash ≡ 32
  pub miner_bytes : All IsByte b.miner
  pub miner_length : length b.miner ≡ addr_length
  pub root_bytes : All IsByte b.merkle_root
  pub root_length : length b.merkle_root ≡ 32

-- The header in front of the nonce.
fixed_part : Block → Bytes
fixed_part b =
    let buf = write_u64 [] b.height in
    let buf = write_bytes buf b.prev_hash in
    let buf = write_i64 buf b.time in
    let buf = write_u64 buf b.difficulty in
    let buf = write_string buf b.miner in
    let buf = write_u64 buf b.extra_nonce in write_bytes buf b.merkle_root

-- What a writer adds: so many bytes, and only bytes.
abbrev Adds : ℕ → Bytes → Bytes → Type 0
Adds n buf out = (length out ≡ length buf + n) × (All IsByte buf → All IsByte out)

Adds-append : (buf bs : Bytes) (n : ℕ) → length bs ≡ n → All IsByte bs → Adds n buf (buf ++ bs)
Adds-append buf bs n q h =
    (omega (arith, length-append buf bs, q), λ k. All-append IsByte buf bs k h)

write_u64-Adds : (buf : Bytes) (v : ℕ) → Adds 8 buf (write_u64 buf v)
unfolding write_u64
write_u64-Adds buf v = Adds-append buf (le_bytes 8 v) 8 (length-le_bytes 8 v) (le_bytes-IsByte 8 v)

prefixed-Adds :
    (buf bs : Bytes) (size n : ℕ)
    → length bs ≡ n
    → All IsByte bs
    → Adds (4 + n) buf (buf ++ le_bytes 4 size ++ bs)
prefixed-Adds buf bs size n q h = (
  omega (
    arith,
    length-append (buf ++ le_bytes 4 size) bs,
    length-append buf (le_bytes 4 size),
    length-le_bytes 4 size,
    q,
  ),
  λ k.
      All-append IsByte (buf ++ le_bytes 4 size) bs
        (All-append IsByte buf (le_bytes 4 size) k (le_bytes-IsByte 4 size)) h,
)

Adds-trans : (n k : ℕ) (x y z : Bytes) → Adds n x y → Adds k y z → Adds (n + k) x z
Adds-trans n k x y z (p, f) (q, g) = (omega (arith, p, q), λ h. g (f h))

fixed_part-Adds : (b : Block) → IsMinable b → Adds 148 [] (fixed_part b)
unfolding fixed_part write_bytes write_string write_i64 write_u64
fixed_part-Adds b m =
    Adds-trans 112 36 [] _ _
      (Adds-trans 104 8 [] _ _
        (Adds-trans 60 44 [] _ _
          (Adds-trans 52 8 [] _ _
            (Adds-trans 44 8 [] _ _
              (Adds-trans 8 36 [] _ _ (write_u64-Adds [] b.height)
                (prefixed-Adds _ b.prev_hash _ 32 m.prev_length m.prev_bytes))
              (write_u64-Adds _ (to_u64 b.time)))
            (write_u64-Adds _ b.difficulty))
          (prefixed-Adds _ b.miner _ 40 m.miner_length m.miner_bytes))
        (write_u64-Adds _ b.extra_nonce))
      (prefixed-Adds _ b.merkle_root _ 32 m.root_length m.root_bytes)

-- For a block whose hashes have 32 bytes and whose miner has the length of an address, and any
-- nonce: `buildMidstate` takes the header, and `finish` of the midstate gives the SHA-256 hash of
-- the block's header with that nonce in it. (SHA-256 is `sha256_of`: padding, whole blocks one by
-- one, digest, on the same compression function.)
pub finish-header_bytes :
    (b : Block) (nonce : ℕ)
    → IsMinable b
    → (mid : Midstate) × (build_midstate (header_bytes b) ≡ some mid)
      × (finish nonce mid ≡ sha256_of (header_bytes (record b { nonce = nonce })))
unfolding header_bytes fixed_part write_u64
finish-header_bytes b nonce m =
    let (long, bytes) = fixed_part-Adds b m in
    finish-sha256_of (fixed_part b) (le_bytes 8 b.nonce) nonce (bytes tt)
      (length-le_bytes 8 b.nonce)
      (omega
        (arith, long, length-append (fixed_part b) (le_bytes 8 b.nonce), length-le_bytes 8 b.nonce))

pub header_bytes-IsByte : (b : Block) → IsMinable b → All IsByte (header_bytes b)
unfolding header_bytes fixed_part
header_bytes-IsByte b m = (write_u64-Adds (fixed_part b) b.nonce).1 ((fixed_part-Adds b m).1 tt)
