-- ===== src/Miner/Kernel.antt =====
-- internal/miner/gpu_opencl.go: the kernel `blugold_mine`, and `Search`, which starts it. What
-- OpenCL does during a search is the parameter Device. Buffers and arguments are set anew in
-- every search, so their values are not kept between two of them.
pub mod Compare
pub mod Resumed
pub mod Answers
use blu_gold.Base.{
  ℕ, ◌+◌, ◌*◌, ◌/◌, ◌%◌, ◌^◌, Bool, true, false, not, Option, none, some, List, [], ◌∷◌, ltb,
  if◌then◌else◌, add_u64, Result, ok, err, ◌>>=◌, ◌>>◌, fail_if,
}
use blu_gold.Miner.Midstate.{
  u32_mod, Regs, Midstate, sha256_k, set_word, expand, rounds, add_regs, regs_words,
}

-- `bswap32`
abbrev pub bswap32 : ℕ → ℕ
bswap32 x =
    x % 256 * 2 ^ 24 + x / 2 ^ 8 % 256 * 2 ^ 16 + x / 2 ^ 16 % 256 * 2 ^ 8 + x / 2 ^ 24 % 256

-- The first 16 words of `w`: the template with the nonce in it.
unfoldable pub kernel_block : Midstate → ℕ → List ℕ
kernel_block mid nonce =
    set_word (mid.nonce_word + 1) (bswap32 (nonce / 2 ^ 32 % u32_mod))
      (set_word mid.nonce_word (bswap32 (nonce % u32_mod)) mid.block)

-- `H`. The kernel has the constants and the rounds of `sha256Compress`.
unfoldable pub kernel_digest : Midstate → ℕ → Regs
kernel_digest mid nonce =
    add_regs mid.state (rounds sha256_k (expand 48 (kernel_block mid nonce)) mid.state)

-- The loop that sets `less`.
unfoldable pub words_less : List ℕ → List ℕ → Bool
words_less [] ts = false
words_less (h ∷ hs) [] = false
words_less (h ∷ hs) (t ∷ ts) =
    let rest = words_less hs ts in if ltb h t then true else if ltb t h then false else rest

-- `*outFound` and `*outNonce`: the nonce that was found.
-- The compare and exchange lets one work item write. An item that meets `*outFound` set, at its
-- start or at the exchange, leaves both alone, so the items come one by one, in the order in
-- which they get to the exchange.
unfoldable pub work_item : Midstate → List ℕ → ℕ → ℕ → Option ℕ → Option ℕ
work_item mid target base id (some nonce) = some nonce
work_item mid target base id none =
    let nonce = add_u64 base id in
    if words_less (regs_words (kernel_digest mid nonce)) target then some nonce else none

unfoldable pub work_items : Midstate → List ℕ → ℕ → List ℕ → Option ℕ → Option ℕ
work_items mid target base [] found = found
work_items mid target base (id ∷ ids) found =
    work_items mid target base ids (work_item mid target base id found)

-- The calls of a search that can fail.
pub data ClCall : Type 0 where
  write_midstate write_block write_target write_found : ClCall
  set_arg : ℕ → ClCall
  launch read_found read_nonce : ClCall

-- OpenCL during one search: the calls that succeed, and the order of the work items of a launch.
pub record Device : Type 0 where
  pub succeeds : ClCall → Bool
  pub order : ℕ → List ℕ

abbrev pub call : Device → ClCall → Result ClCall (Unit {0})
call d c = fail_if (not (d.succeeds c)) c

unfoldable pub write_buffers : Device → Result ClCall (Unit {0})
write_buffers d = do
  call d write_midstate
  call d write_block
  call d write_target
  call d write_found

unfoldable pub set_args : Device → Result ClCall (Unit {0})
set_args d = do
  call d (set_arg 0)
  call d (set_arg 1)
  call d (set_arg 2)
  call d (set_arg 3)
  call d (set_arg 4)
  call d (set_arg 5)
  call d (set_arg 6)

-- The nonce is read where `found` is not zero.
unfoldable pub read_result : Device → Option ℕ → Result ClCall (Option ℕ)
read_result d none = do call d read_found; ok none
read_result d (some nonce) = do call d read_found; call d read_nonce; ok (some nonce)

-- `Search`; an error is the call that failed.
unfoldable pub search_nonces : Device → Midstate → List ℕ → ℕ → ℕ → Result ClCall (Option ℕ)
search_nonces d mid target base count = do
  write_buffers d
  set_args d
  call d launch
  read_result d (work_items mid target base (d.order count) none)
