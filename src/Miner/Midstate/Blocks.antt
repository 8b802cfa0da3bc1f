-- ===== src/Miner/Midstate/Blocks.antt =====
-- Blocks of a message.
use blu_gold.Base.{
  ℕ, zero, suc, ◌+◌, ◌*◌, ◌≤◌, ◌≡◌, refl, ap, [], ◌∷◌, ◌++◌, Bytes, arith, length, length-drop,
  take, drop, replicate,
}
use blu_gold.Miner.Midstate.{Regs, compress, compress_all}

pub take-append : (k : ℕ) (xs ys : Bytes) → length xs ≡ k → take k (xs ++ ys) ≡ xs
take-append zero [] ys h = refl
take-append zero (x ∷ xs) ys h = absurd (omega (arith, h))
take-append (suc k) [] ys h = absurd (omega (arith, h))
take-append (suc k) (x ∷ xs) ys h = ap (λ l. x ∷ l) (take-append k xs ys (omega (arith, h)))

pub drop-append : (k : ℕ) (xs ys : Bytes) → length xs ≡ k → drop k (xs ++ ys) ≡ ys
drop-append zero [] ys h = refl
drop-append zero (x ∷ xs) ys h = absurd (omega (arith, h))
drop-append (suc k) [] ys h = absurd (omega (arith, h))
drop-append (suc k) (x ∷ xs) ys h = drop-append k xs ys (omega (arith, h))

pub take-within : (k : ℕ) (xs ys : Bytes) → k ≤ length xs → take k (xs ++ ys) ≡ take k xs
take-within zero xs ys h = refl
take-within (suc k) [] ys h = absurd (omega (arith, h))
take-within (suc k) (x ∷ xs) ys h = ap (λ l. x ∷ l) (take-within k xs ys (omega (arith, h)))

pub drop-within : (k : ℕ) (xs ys : Bytes) → k ≤ length xs → drop k (xs ++ ys) ≡ drop k xs ++ ys
drop-within zero xs ys h = refl
drop-within (suc k) [] ys h = absurd (omega (arith, h))
drop-within (suc k) (x ∷ xs) ys h = drop-within k xs ys (omega (arith, h))

compress_next :
    (k : ℕ) (bs : Bytes) (h : Regs)
    → compress_all (suc k) bs h ≡ compress_all k (drop 64 bs) (compress (take 64 bs) h)
unfolding compress_all
compress_next k bs h = refl

-- Whole blocks in front are compressed first, whatever follows them.
pub compress_all-append :
    (k j : ℕ) (xs ys : Bytes) (h : Regs)
    → length xs ≡ 64 * k
    → compress_all (k + j) (xs ++ ys) h ≡ compress_all j ys (compress_all k xs h)
unfolding compress_all
compress_all-append zero j [] ys h q = let none_more : 0 + j ≡ j = omega arith in rw none_more refl
compress_all-append zero j (x ∷ xs) ys h q = absurd (omega (arith, q))
compress_all-append (suc k) j xs ys h q =
    let one_more : suc k + j ≡ suc (k + j) = omega arith in
    rw
      (
        one_more,
        compress_next (k + j) (xs ++ ys) h,
        compress_next k xs h,
        take-within 64 xs ys (omega (arith, q)),
        drop-within 64 xs ys (omega (arith, q)),
      )
      (compress_all-append k j (drop 64 xs) ys (compress (take 64 xs) h)
        (omega (arith, length-drop 64 xs, q)))

-- The zeros of a new block.
pub replicate-append : (j k : ℕ) (x : ℕ) → replicate (j + k) x ≡ replicate j x ++ replicate k x
replicate-append zero k x = let none_more : 0 + k ≡ k = omega arith in rw none_more refl
replicate-append (suc j) k x =
    let one_more : suc j + k ≡ suc (j + k) = omega arith in
    rw one_more (ap (λ l. x ∷ l) (replicate-append j k x))
