-- ===== src/Chain/Codec.antt =====
-- internal/chain/codec.go: the binary encoding of fields. A `bytes.Buffer` is the bytes written.
pub mod Injective
use blu_gold.Base.{ℕ, zero, suc, ◌+◌, ◌/◌, ◌%◌, ◌^◌, [], ◌∷◌, ◌++◌, Bytes, length}
use blu_gold.Base.Int.{ℤ, to_u64}

-- `binary.LittleEndian.PutUint64` and `PutUint32`, for `k` bytes.
unfoldable pub le_bytes : ℕ → ℕ → Bytes
le_bytes zero v = []
le_bytes (suc k) v = (v % 256) ∷ le_bytes k (v / 256)

unfoldable pub write_u64 : Bytes → ℕ → Bytes
write_u64 buf v = buf ++ le_bytes 8 v

unfoldable pub write_i64 : Bytes → ℤ → Bytes
write_i64 buf v = buf ++ le_bytes 8 (to_u64 v)

-- `uint32(len(s))` is the low half of the length.
unfoldable pub write_string : Bytes → Bytes → Bytes
write_string buf s = buf ++ le_bytes 4 (length s % 2 ^ 32) ++ s

unfoldable pub write_bytes : Bytes → Bytes → Bytes
write_bytes buf b = buf ++ le_bytes 4 (length b % 2 ^ 32) ++ b
