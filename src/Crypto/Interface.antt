-- ===== src/Crypto/Interface.antt =====
-- What the program takes from crypto/sha256 and crypto/ed25519.
use blu_gold.Base.{◌≡◌, Bool, Bytes, IsByte, All, length}

pub record Primitives : Type 0 where
  -- `sha256.Sum256`, a digest of 32 bytes
  pub sha256 : Bytes → Bytes
  pub sha256_length : (b : Bytes) → length (sha256 b) ≡ 32
  pub sha256_bytes : (b : Bytes) → All IsByte (sha256 b)
  -- `ed25519.Verify(pk, msg, sig)`
  pub ed25519_verify : Bytes → Bytes → Bytes → Bool
