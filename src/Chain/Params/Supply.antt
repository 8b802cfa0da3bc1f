-- ===== src/Chain/Params/Supply.antt =====
-- The money that the reward schedule can make.
use blu_gold.Base.{ℕ, zero, suc, ◌+◌, ◌-◌, ◌*◌, ◌/◌, ◌%◌, ◌^◌, ◌≤◌, ◌<◌, ◌≡◌, refl, arith}
use native.Mathlib.Nat.{
  pow-suc, div-div-eq-div-mul, mul-div-le, mul-le-mul_left, mul-le-mul_right, pow-le-pow_right,
}
use native.Mathlib.Decide.{dec_le}
use blu_gold.Chain.Params.{Params, era_reward, default_params}

-- The rewards of the heights 1 to n. Genesis pays none.
unfoldable pub minted : Params → ℕ → ℕ
minted p zero = 0
minted p (suc n) = minted p n + era_reward p (suc n / p.halving_interval)

-- One block of each of the first `k` eras.
abbrev pub eras : Params → ℕ → ℕ
eras p zero = 0
eras p (suc k) = eras p k + era_reward p k

era_of : (n i k r : ℕ) → n ≡ k * i + r → r < i → n / i ≡ k
era_of n i k r e h = grind arith

halves : (p : Params) (k : ℕ) → 2 * era_reward p (suc k) ≤ era_reward p k
unfolding era_reward
halves p k = ground (arith, half)
  where
    half : 2 * (p.initial_reward / 2 ^ suc k) ≤ p.initial_reward / 2 ^ k
    half =
        rw (pow-suc 2 k, ← div-div-eq-div-mul p.initial_reward (2 ^ k) 2)
          (mul-div-le (p.initial_reward / 2 ^ k) 2)

-- The first eras, with room for the rest.
eras-le : (p : Params) (k : ℕ) → eras p k + 2 * era_reward p k ≤ 2 * p.initial_reward
eras-le p zero = unfold era_reward in omega arith
eras-le p (suc k) = omega (arith, halves p k, eras-le p k)

-- The rewards up to and with height n, which stands `r` blocks into era `k`, and the unpaid one of
-- genesis.
minted-eras :
    (p : Params) (n k r : ℕ)
    → n ≡ k * p.halving_interval + r
    → r < p.halving_interval
    → minted p n + era_reward p 0 ≡ p.halving_interval * eras p k + (r + 1) * era_reward p k
unfolding minted
minted-eras p zero zero r e h = omega (arith, r-zero)
  where
    r-zero : (r + 1) * era_reward p 0 ≡ era_reward p 0
    r-zero = let z : r ≡ 0 = omega arith in rw z (omega arith)
minted-eras p zero (suc k) r e h = absurd (omega arith)
minted-eras p (suc n) zero zero e h = absurd (omega arith)
minted-eras p (suc n) (suc k) zero e h =
    rw (era_of (suc n) p.halving_interval (suc k) 0 e h)
      (omega (arith, whole, minted-eras p n k (p.halving_interval - 1) (omega arith) (omega arith)))
  where
    whole : (p.halving_interval - 1 + 1) * era_reward p k ≡ p.halving_interval * era_reward p k
    whole = let z : p.halving_interval - 1 + 1 ≡ p.halving_interval = omega arith in rw z
minted-eras p (suc n) k (suc r) e h =
    rw (era_of (suc n) p.halving_interval k (suc r) e h)
      (omega (arith, minted-eras p n k r (omega arith) (omega arith)))

-- The rewards of all heights up to `n`, genesis included, are under `eras (k + 1)` whole eras.
minted-le-eras :
    (p : Params) (n : ℕ)
    → 0 < p.halving_interval
    → minted p n + era_reward p 0 ≤ p.halving_interval * eras p (suc (n / p.halving_interval))
minted-le-eras p n h = omega (
  arith,
  minted-eras p n (n / p.halving_interval) (n % p.halving_interval) (omega arith) (omega arith),
  mul-le-mul_right (era_reward p (n / p.halving_interval)) room,
)
  where
    room : n % p.halving_interval + 1 ≤ p.halving_interval
    room = omega arith

-- For all parameters with a positive interval, and at every height: the rewards of the heights 1 to
-- n, and the first reward once more, make at most two eras of the first reward.
pub minted-le :
    (p : Params) (n : ℕ)
    → 0 < p.halving_interval
    → minted p n + era_reward p 0 ≤ p.halving_interval * (2 * p.initial_reward)
minted-le p n h = omega (
  arith,
  minted-le-eras p n h,
  mul-le-mul_left p.halving_interval (bound (n / p.halving_interval)),
)
  where
    bound : (k : ℕ) → eras p (suc k) ≤ 2 * p.initial_reward
    bound k = omega (arith, eras-le p k)

late_era : (k : ℕ) → 27 ≤ k → era_reward default_params k ≡ 0
unfolding era_reward
late_era k h = ground (arith, pow-le-pow_right {n = 2} (omega arith) h, small)
  where
    small : 2 ^ 27 ≤ 2 ^ k → 100_000_000 / 2 ^ k ≡ 0
    small q = grind arith

eras_grow : (p : Params) (j k m : ℕ) → m ≡ k + j → eras p k ≤ eras p m
eras_grow p zero k m e = let q : m ≡ k = omega arith in rw q (omega arith)
eras_grow p (suc j) k zero e = absurd (omega arith)
eras_grow p (suc j) k (suc m) e = omega (arith, eras_grow p j k m (omega arith))

first_eras : eras default_params 27 ≡ 199_999_988
unfolding era_reward
first_eras = refl

all_eras : (j k : ℕ) → k ≡ 27 + j → eras default_params k ≡ 199_999_988
all_eras zero k e = let q : k ≡ 27 = omega arith in rw q first_eras
all_eras (suc j) zero e = absurd (omega arith)
all_eras (suc j) (suc k) e = omega (arith, all_eras j k (omega arith), late_era k (omega arith))

default_eras : (k : ℕ) → eras default_params k ≤ 199_999_988
default_eras k = elim (dec_le k 27) [
  | yes h ↦ omega (arith, eras_grow default_params (27 - k) k 27 (omega arith), first_eras)
  | no h ↦ omega (arith, all_eras (k - 27) k (omega arith))
]

first_reward : era_reward default_params 0 ≡ 100_000_000
unfolding era_reward
first_reward = refl

-- With the parameters of the network the rewards of the heights 1 to n, with the unpaid reward of
-- genesis, are at most 20,159.99879040 BLG, at every height.
pub default_supply_cap : (n : ℕ) → minted default_params n + 100_000_000 ≤ 2_015_999_879_040
default_supply_cap n = omega (
  arith,
  first_reward,
  minted-le-eras default_params n (omega arith),
  default_eras (suc (n / 10_080)),
)

-- With the parameters of the network: from height 272,159 on, the rewards of the heights 1 to n
-- make exactly 20,158.99879040 BLG, and no later block adds to it. That is one BLG less than
-- 20,159.99879040 BLG, as the genesis block's reward is paid to nobody.
pub default_supply_reached : (n : ℕ) → 272_159 ≤ n → minted default_params n ≡ 2_015_899_879_040
default_supply_reached n h = omega (
  arith,
  first_reward,
  minted-eras default_params n (n / 10_080) (n % 10_080) (omega arith) (omega arith),
  all_eras (suc (n / 10_080) - 27) (suc (n / 10_080)) (omega arith),
  last_block,
)
  where
    last_block :
        (n % 10_080 + 1) * era_reward default_params (n / 10_080)
          + 10_080 * eras default_params (n / 10_080)
        ≡ 10_080 * eras default_params (suc (n / 10_080))
    last_block = elim (dec_le 27 (n / 10_080)) [
      | yes far ↦ rw (late_era (n / 10_080) far) (omega arith)
      | no near ↦ let full : n % 10_080 + 1 ≡ 10_080 = omega arith in rw full (omega arith)
    ]
