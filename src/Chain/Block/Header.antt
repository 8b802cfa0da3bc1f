-- ===== src/Chain/Block/Header.antt =====
-- The header bytes determine the header, and have a fixed place for the nonce.
use blu_gold.Base.{◌^◌, ◌<◌, ◌≡◌, sym, ap, ◌∙◌, [], ◌++◌, Bytes, length, IsU64, arith}
use mathlib.Core.List.{append_assoc, append-nil}
use blu_gold.Base.Int.{to_u64, of_u64, of_u64-to_u64, to_u64-lt, IsI64}
use blu_gold.Chain.Codec.{le_bytes, write_u64, write_i64, write_string, write_bytes}
use blu_gold.Chain.Codec.Injective.{prefixed, prefixed-field, le_bytes-field}
use blu_gold.Chain.Block.{Block, header_bytes}

-- The header fields hold Go values.
pub record IsHeader (b : Block) : Type 0 where
  pub height_fits : IsU64 b.height
  pub prev_fits : length b.prev_hash ≡ 32
  pub time_fits : IsI64 b.time
  pub difficulty_fits : IsU64 b.difficulty
  pub miner_fits : length b.miner < 2 ^ 32
  pub extra_nonce_fits : IsU64 b.extra_nonce
  pub root_fits : length b.merkle_root ≡ 32
  pub nonce_fits : IsU64 b.nonce

pub record SameHeader (a b : Block) : Type 0 where
  pub same_height : a.height ≡ b.height
  pub same_prev : a.prev_hash ≡ b.prev_hash
  pub same_time : a.time ≡ b.time
  pub same_difficulty : a.difficulty ≡ b.difficulty
  pub same_miner : a.miner ≡ b.miner
  pub same_extra_nonce : a.extra_nonce ≡ b.extra_nonce
  pub same_root : a.merkle_root ≡ b.merkle_root
  pub same_nonce : a.nonce ≡ b.nonce

layout : Block → Bytes → Bytes
layout b rest =
    le_bytes 8 b.height
    ++ (prefixed b.prev_hash
        ++ (le_bytes 8 (to_u64 b.time)
            ++ (le_bytes 8 b.difficulty
                ++ (prefixed b.miner
                    ++ (le_bytes 8 b.extra_nonce
                        ++ (prefixed b.merkle_root ++ (le_bytes 8 b.nonce ++ rest)))))))

header_bytes-layout : (b : Block) → header_bytes b ≡ layout b []
unfolding header_bytes write_u64 write_i64 write_string write_bytes layout prefixed
header_bytes-layout b = simp (append_assoc, append-nil)

-- Two blocks whose header fields hold Go values and whose header bytes are the same agree in every
-- header field. (The transactions are no part of the bytes.)
pub header_bytes-inj :
    (a b : Block) → IsHeader a → IsHeader b → header_bytes a ≡ header_bytes b → SameHeader a b
unfolding layout
header_bytes-inj a b ha hb e =
    let (height, e1) =
      le_bytes-field 8 a.height b.height (omega arith) (omega arith)
        (sym (header_bytes-layout a) ∙ e ∙ header_bytes-layout b) in
    let (prev, e2) = prefixed-field a.prev_hash b.prev_hash (omega arith) (omega arith) e1 in
    let (time, e3) =
      le_bytes-field 8 (to_u64 a.time) (to_u64 b.time) (omega (arith, to_u64-lt a.time))
        (omega (arith, to_u64-lt b.time)) e2 in
    let (difficulty, e4) =
      le_bytes-field 8 a.difficulty b.difficulty (omega arith) (omega arith) e3 in
    let (miner, e5) = prefixed-field a.miner b.miner ha.miner_fits hb.miner_fits e4 in
    let (extra, e6) = le_bytes-field 8 a.extra_nonce b.extra_nonce (omega arith) (omega arith) e5 in
    let (root, e7) = prefixed-field a.merkle_root b.merkle_root (omega arith) (omega arith) e6 in
    let (nonce, e8) = le_bytes-field 8 a.nonce b.nonce (omega arith) (omega arith) e7 in
    record {
      same_height = height;
      same_prev = prev;
      same_time =
          sym (of_u64-to_u64 a.time ha.time_fits)
          ∙ ap of_u64 time
          ∙ of_u64-to_u64 b.time hb.time_fits;
      same_difficulty = difficulty;
      same_miner = miner;
      same_extra_nonce = extra;
      same_root = root;
      same_nonce = nonce;
    }
