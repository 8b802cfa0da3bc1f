-- ===== src/Miner/Kernel/Answers.antt =====
-- What a search answers.
use blu_gold.Base.{
  ℕ, ◌^◌, ◌<◌, ◌≡◌, refl, sym, ap, ◌∙◌, ◌⊎◌, inl, inr, Bool, true, false, Bool-cases, Option, none,
  some, List, [], ◌∷◌, Bytes, All, ltb, add_u64, Result, ok, err, ◌>>◌,
}
use blu_gold.Crypto.Interface.{Primitives}
use blu_gold.Chain.Tx.{hash_bytes}
use blu_gold.Chain.Block.{Block, header_bytes, be_number, block_hash}
use blu_gold.Miner.Midstate.{Midstate, regs_words, build_midstate, finish}
use blu_gold.Miner.Midstate.Hash.{sha256_of}
use blu_gold.Miner.Midstate.Header.{IsMinable, header_bytes-IsByte, finish-header_bytes}
use blu_gold.Miner.Target.{hash_below, target_words}
use blu_gold.Miner.Kernel.{
  kernel_digest, words_less, work_item, work_items, ClCall, Device, call, write_buffers, set_args,
  read_result, search_nonces,
}
use blu_gold.Miner.Kernel.Compare.{words_less-target_words}
use blu_gold.Miner.Kernel.Resumed.{
  kernel_digest-finish, length-kernel_digest, kernel_digest-IsU32, build_midstate-IsU32,
}

abbrev pub Occurs : ℕ → List ℕ → Type 0
Occurs i [] = ⊥
Occurs i (j ∷ js) = (i ≡ j) ⊎ Occurs i js

-- A launch of `count` work items runs those with the numbers below `count`.
pub record RunsAll (d : Device) (count : ℕ) : Type 0 where
  pub within : All (λ id. id < count) (d.order count)
  pub covers : (id : ℕ) → id < count → Occurs id (d.order count)

-- A call that failed, or a result with the property.
abbrev pub Ends {ℓ} : {A : Type ℓ} → Device → (A → Type 0) → Result ClCall A → Type 0
Ends d P (err c) = d.succeeds c ≡ false
Ends d P (ok a) = P a

call-Ends : (d : Device) (c : ClCall) → Ends d (λ _. Unit {0}) (call d c)
call-Ends d c = elim (Bool-cases (d.succeeds c)) [ inl e ↦ rw e tt | inr e ↦ rw e e ]

>>-Ends {ℓ} :
    {A : Type ℓ} (d : Device) (P : A → Type 0) (m : Result ClCall (Unit {0})) (k : Result ClCall A)
    → Ends d (λ _. Unit {0}) m
    → Ends d P k
    → Ends d P (m >> k)
>>-Ends d P (ok _) k hm hk = hk
>>-Ends d P (err c) k hm hk = hm

call-then {ℓ} :
    {A : Type ℓ} (d : Device) (P : A → Type 0) (c : ClCall) (k : Result ClCall A)
    → Ends d P k
    → Ends d P (call d c >> k)
call-then d P c k hk = >>-Ends d P (call d c) k (call-Ends d c) hk

write_buffers-Ends : (d : Device) → Ends d (λ _. Unit {0}) (write_buffers d)
unfolding write_buffers
write_buffers-Ends d =
    call-then d _ _ _ (call-then d _ _ _ (call-then d _ _ _ (call-Ends d ClCall.write_found)))

set_args-Ends : (d : Device) → Ends d (λ _. Unit {0}) (set_args d)
unfolding set_args
set_args-Ends d = call-then d _ _ _ (
    call-then d _ _ _ (
      call-then d _ _ _ (
        call-then d _ _ _
          (call-then d _ _ _ (call-then d _ _ _ (call-Ends d (ClCall.set_arg 6)))))))

read_result-Ends :
    (d : Device) (P : Option ℕ → Type 0) (found : Option ℕ)
    → P found
    → Ends d P (read_result d found)
unfolding read_result
read_result-Ends d P none h = call-then d P _ (ok none) h
read_result-Ends d P (some nonce) h = call-then d P _ _ (call-then d P _ (ok (some nonce)) h)

search_nonces-Ends :
    (d : Device) (P : Option ℕ → Type 0) (mid : Midstate) (target : List ℕ) (base count : ℕ)
    → P (work_items mid target base (d.order count) none)
    → Ends d P (search_nonces d mid target base count)
unfolding search_nonces
search_nonces-Ends d P mid target base count h =
    >>-Ends d P (write_buffers d) _ (write_buffers-Ends d) (
      >>-Ends d P (set_args d) _ (set_args-Ends d)
        (call-then d P ClCall.launch _ (read_result-Ends d P _ h)))

-- What the work items leave: a nonce of theirs that passes, or none where no nonce does.
abbrev Left : (ℕ → Bool) → ℕ → List ℕ → Option ℕ → Type 0
Left passes base ids none = (id : ℕ) → Occurs id ids → passes (add_u64 base id) ≡ false
Left passes base ids (some nonce) =
    (passes nonce ≡ true) × ((id : ℕ) × Occurs id ids × (nonce ≡ add_u64 base id))

less : Midstate → List ℕ → ℕ → Bool
less mid target nonce = words_less (regs_words (kernel_digest mid nonce)) target

Left-none :
    (passes : ℕ → Bool) (base id : ℕ) (ids : List ℕ)
    → passes (add_u64 base id) ≡ false
    → ((i : ℕ) → Occurs i ids → passes (add_u64 base i) ≡ false)
    → (i : ℕ) → Occurs i (id ∷ ids)
    → passes (add_u64 base i) ≡ false
Left-none passes base id ids h rest i (inl e) = ap (λ j. passes (add_u64 base j)) e ∙ h
Left-none passes base id ids h rest i (inr o) = rest i o

Left-later :
    (passes : ℕ → Bool) (base id : ℕ) (ids : List ℕ) (found : Option ℕ)
    → passes (add_u64 base id) ≡ false
    → Left passes base ids found
    → Left passes base (id ∷ ids) found
Left-later passes base id ids none h rest = Left-none passes base id ids h rest
Left-later passes base id ids (some nonce) h (p, (i, o, e)) = (p, (i, inr o, e))

module _ (mid : Midstate) (target : List ℕ) (base : ℕ) where
  items_found :
      (ids : List ℕ) (nonce : ℕ) → work_items mid target base ids (some nonce) ≡ some nonce
  unfolding work_items work_item
  items_found [] nonce = refl
  items_found (id ∷ ids) nonce = items_found ids nonce

  work_items-Left :
      (ids : List ℕ) → Left (less mid target) base ids (work_items mid target base ids none)
  unfolding work_items work_item less
  work_items-Left [] = λ i o. absurd o
  work_items-Left (id ∷ ids) =
      elim (Bool-cases (words_less (regs_words (kernel_digest mid (add_u64 base id))) target)) [
        | inl passed ↦ rw (passed, items_found ids (add_u64 base id)) (passed, (id, inl refl, refl))
        | inr failed ↦
            rw failed (Left-later (less mid target) base id ids _ failed (work_items-Left ids))
      ]

All-Occurs : (P : ℕ → Type 0) (ids : List ℕ) → All P ids → (i : ℕ) → Occurs i ids → P i
All-Occurs P [] h i o = absurd o
All-Occurs P (j ∷ ids) (hj, h) i (inl e) = rw e hj
All-Occurs P (j ∷ ids) (hj, h) i (inr o) = All-Occurs P ids h i o

module _ ⦃c : Primitives⦄ where
  -- For the nonces `base`, `base + 1` and on, as many as `count`.
  abbrev pub Answer : Block → ℕ → ℕ → ℕ → Option ℕ → Type 0
  Answer b t base count none =
      (id : ℕ) → id < count → hash_below t (record b { nonce = add_u64 base id }) ≡ false
  Answer b t base count (some nonce) =
      (hash_below t (record b { nonce = nonce }) ≡ true)
      × ((id : ℕ) × (id < count) × (nonce ≡ add_u64 base id))

  Left-Answer :
      (b : Block) (t base count : ℕ) (d : Device) (passes : ℕ → Bool) (found : Option ℕ)
      → RunsAll d count
      → ((nonce : ℕ) → passes nonce ≡ hash_below t (record b { nonce = nonce }))
      → Left passes base (d.order count) found
      → Answer b t base count found
  Left-Answer b t base count d passes none runs same left =
      λ id lt. sym (same (add_u64 base id)) ∙ left id (runs.covers id lt)
  Left-Answer b t base count d passes (some nonce) runs same (p, (id, o, e)) =
      (sym (same nonce) ∙ p, (id, All-Occurs _ (d.order count) runs.within id o, e))

  module _ (real : (m : Bytes) → c.sha256 m ≡ sha256_of m) (b : Block) (minable : IsMinable b) where
    hashed :
        (mid : Midstate) (nonce : ℕ)
        → build_midstate (header_bytes b) ≡ some mid
        → finish nonce mid ≡ sha256_of (header_bytes (record b { nonce = nonce }))
    hashed mid nonce built =
        let (mid', built', same) = finish-header_bytes b nonce minable in
        let one : mid' ≡ mid = cc in ap (finish nonce) (sym one) ∙ same

    less-hash_below :
        (t : ℕ) (mid : Midstate)
        → t < 2 ^ 256
        → build_midstate (header_bytes b) ≡ some mid
        → (nonce : ℕ) → less mid (target_words t) nonce ≡ hash_below t (record b { nonce = nonce })
    unfolding less hash_below block_hash hash_bytes
    less-hash_below t mid fits built nonce =
        let words =
          build_midstate-IsU32 (header_bytes b) mid (header_bytes-IsByte b minable) built in
        words_less-target_words (regs_words (kernel_digest mid nonce)) t
          (length-kernel_digest mid nonce words) (kernel_digest-IsU32 mid nonce words) fits
        ∙ ap (λ l. ltb (be_number l) t)
            (kernel_digest-finish mid nonce words
              ∙ hashed mid nonce built
              ∙ sym (real (header_bytes (record b { nonce = nonce }))))

    pub search_nonces-Answer :
        (t : ℕ) (d : Device) (base count : ℕ) (mid : Midstate)
        → t < 2 ^ 256
        → RunsAll d count
        → build_midstate (header_bytes b) ≡ some mid
        → Ends d (Answer b t base count) (search_nonces d mid (target_words t) base count)
    search_nonces-Answer t d base count mid fits runs built =
        search_nonces-Ends d (Answer b t base count) mid (target_words t) base count (
          Left-Answer b t base count d (less mid (target_words t)) _ runs
            (less-hash_below t mid fits built)
            (work_items-Left mid (target_words t) base (d.order count)))

-- `Search` for a block that is minable, where `sha256` is SHA-256, the target fits 256 bits and a
-- launch runs all its work items, in any order: `buildMidstate` takes the header, and with its
-- midstate and the words of the target, a search that reports a nonce has found one of its range
-- with which the block's hash is below the target, a search that reports none leaves no such
-- nonce in its range, and a search fails only where a call of OpenCL does. (The range is the nonces
-- from `base` on, modulo 2^64, as many as `count`.)
pub search_nonces-Answers :
    ⦃c : Primitives⦄
    → ((m : Bytes) → c.sha256 m ≡ sha256_of m)
    → (b : Block) (t : ℕ) (d : Device) (base count : ℕ) → IsMinable b
    → t < 2 ^ 256
    → RunsAll d count
    → (mid : Midstate) × (build_midstate (header_bytes b) ≡ some mid)
      × Ends d (Answer b t base count) (search_nonces d mid (target_words t) base count)
search_nonces-Answers real b t d base count minable fits runs =
    let (mid, built, _) = finish-header_bytes b 0 minable in
    (mid, built, search_nonces-Answer real b minable t d base count mid fits runs built)
