-- ===== src/Node/Transactions/Picked.antt =====
-- The transactions that `BuildCandidate` picks, and their run in the loop of `ApplyBlock`.
use blu_gold.Base.{
  ℕ, zero, suc, ◌+◌, ◌≡◌, refl, sym, ◌∙◌, Option, none, some, List, [], ◌∷◌, map, take, All, arith,
  Bytes, bytes_eq, ok, IsU64, add_u64, Bool, Bool-cases, inl, inr,
}
use blu_gold.Base.Dict.{Dict, lookup}
use blu_gold.Crypto.Interface.{Primitives}
use blu_gold.Chain.Tx.{Tx, Hash, verify}
use blu_gold.State.Monad.{State, Outcome, done, failed, panic}
use blu_gold.State.{apply_tx, apply_rest}
use blu_gold.State.Total.{total}
use blu_gold.State.Transfer.{Transfers, apply_tx-Transfers}
use blu_gold.State.Matching.{Matches, applied_match}
use blu_gold.State.BlockMoney.{InRange, fees, after_tx, apply_rest_step}
use blu_gold.Node.Pool.{pooled, insert_stable, sort_from, sort_stable}
use blu_gold.Node.Transactions.{pick, pick_all, fee_total}

module _ {A : Type 0} (P : A → Type 0) (less : A → A → Bool) where
  insert_stable-All : (x : A) (ys : List A) → P x → All P ys → All P (insert_stable less x ys)
  unfolding insert_stable
  insert_stable-All x [] hx hys = (hx, tt)
  insert_stable-All x (y ∷ ys) hx (hy, hys) = elim (Bool-cases (less x y)) [
    | inl l ↦ rw l (hx, (hy, hys))
    | inr l ↦ rw l (hy, insert_stable-All x ys hx hys)
  ]

  sort_from-All : (xs sorted : List A) → All P sorted → All P xs → All P (sort_from less sorted xs)
  unfolding sort_from
  sort_from-All [] sorted h hxs = h
  sort_from-All (x ∷ xs) sorted h (hx, hxs) =
      sort_from-All xs (insert_stable less x sorted) (insert_stable-All x sorted hx h) hxs

  pub sort_stable-All : (xs : List A) → All P xs → All P (sort_stable less xs)
  unfolding sort_stable
  sort_stable-All xs h = sort_from-All xs [] tt h

lookup-All :
    {V : Type 0} (P : V → Type 0) (h : Bytes) (d : Dict V) (v : V)
    → All (λ (p : Bytes × V). P p.1) d
    → lookup h d ≡ some v
    → P v
unfolding lookup
lookup-All P h [] v hd e = absurd (cc e)
lookup-All P h ((k, w) ∷ d) v (hw, hd) e = elim (Bool-cases (bytes_eq k h)) [
  | inl same ↦ let q : w ≡ v = cc in rw (sym q) hw
  | inr other ↦ lookup-All P h d v hd (rw other at e)
]

-- One entry of the mempool's order, in front of the others.
entry-All :
    (P : Tx → Type 0) (h : Hash) (o : Option Tx) (rest : List (Hash × Tx))
    → ((v : Tx) → o ≡ some v → P v)
    → All P (map (λ (p : Hash × Tx). p.1) rest)
    → All P (map (λ (p : Hash × Tx). p.1) (elim o [ none ↦ rest | some t ↦ (h, t) ∷ rest ]))
entry-All P h none rest k all = all
entry-All P h (some t) rest k all = (k t refl, all)

pub pooled-All :
    (P : Tx → Type 0) (txs : Dict Tx) (order : List Hash)
    → All (λ (p : Bytes × Tx). P p.1) txs
    → All P (map (λ (p : Hash × Tx). p.1) (pooled txs order))
unfolding pooled
pooled-All P txs [] h = tt
pooled-All P txs (g ∷ order) h =
    entry-All P g (lookup g txs) (pooled txs order) (λ v e. lookup-All P g txs v h e)
      (pooled-All P txs order h)

module _ ⦃c : Primitives⦄ where
  -- A transaction that `Verify` passes, with uint64 fields.
  abbrev pub Sound : Tx → Type 0
  Sound t = (verify t ≡ ok tt) × InRange t

  -- Every transaction applies, one after the other.
  abbrev pub Runs : List Tx → State → Type 0
  Runs [] s = Unit {0}
  Runs (t ∷ ts) s = Sound t × ((apply_tx t s).0 ≡ done tt) × Runs ts (apply_tx t s).1

  -- A loop that does not panic, and whose transactions run.
  abbrev pub Picks : Option (List Tx) → State → Type 0
  Picks o s = (txs : List Tx) × (o ≡ some txs) × Runs txs s

  pick-Runs :
      (t : Tx) (ts : List Tx) (s s' : State) (q : Outcome (Unit {0}) × State)
      → Sound t
      → IsU64 (total s)
      → Matches s s'
      → Transfers t s q
      → ((w w' : State) → IsU64 (total w) → Matches w w' → Picks (pick_all ts w) w')
      → Picks (pick (pick_all ts) t q) s'
  unfolding pick
  pick-Runs t ts s s' (done _, w) ht hs m h ih =
      let (fine, same) =
        applied_match t s s' w (apply_tx t s') m h
          (apply_tx-Transfers t s' ht.1.amount_fits ht.1.fee_fits (omega (arith, m.0))) in
      let (txs, picked, runs) = ih w (apply_tx t s').1 (omega (arith, h.1)) same in
      (t ∷ txs, rw (pick, picked) refl, (ht, fine, runs))
  pick-Runs t ts s s' (failed e, w) ht hs m (no_fit, money, each) ih =
      ih w s' (omega (arith, money)) (money ∙ m.0, λ a. each a ∙ m.1 a)
  pick-Runs t ts s s' (panic, w) ht hs m h ih = absurd h

  pub pick_all-Runs :
      (ts : List Tx) (s s' : State)
      → All Sound ts
      → IsU64 (total s)
      → Matches s s'
      → Picks (pick_all ts s) s'
  unfolding pick_all
  pick_all-Runs [] s s' h hs m = ([], refl, tt)
  pick_all-Runs (t ∷ ts) s s' (ht, hts) hs m =
      pick-Runs t ts s s' (apply_tx t s) ht hs m
        (apply_tx-Transfers t s ht.1.amount_fits ht.1.fee_fits hs)
        (λ w w' hw mw. pick_all-Runs ts w w' hts hw mw)

  pub take-Runs : (k : ℕ) (ts : List Tx) (s : State) → Runs ts s → Runs (take k ts) s
  take-Runs zero ts s h = tt
  take-Runs (suc k) [] s h = tt
  take-Runs (suc k) (t ∷ ts) s (ht, e, h) = (ht, e, take-Runs k ts (apply_tx t s).1 h)

  -- The loop of `ApplyBlock` ends, with the exact sum of the fees.
  abbrev pub Collected : List Tx → ℕ → State → Type 0
  Collected ts sum s =
      (s' : State) × (apply_rest ts sum s ≡ (done (sum + fees ts), s'))
      × (total s' + fees ts ≡ total s)

  Collected-step :
      (t : Tx) (ts : List Tx) (sum : ℕ) (s : State) (q : Outcome (Unit {0}) × State)
      → apply_tx t s ≡ q
      → Sound t
      → IsU64 (sum + total s)
      → Transfers t s q
      → q.0 ≡ done tt
      → (IsU64 (sum + t.fee + total q.1) → Collected ts (sum + t.fee) q.1)
      → Collected (t ∷ ts) sum s
  Collected-step t ts sum s (done _, w) e ht hs (a, money, each) d ih =
      let (s', run, rest) = ih (omega (arith, money)) in
      let fits : add_u64 sum t.fee ≡ sum + t.fee = ground (arith, money) in
      (
        s',
        apply_rest_step t ts sum s ht.0 ∙ (rw e (unfold after_tx in ground (arith, run, fits))),
        omega (arith, money, rest),
      )
  Collected-step t ts sum s (failed x, w) e ht hs h d ih = absurd (cc d)
  Collected-step t ts sum s (panic, w) e ht hs h d ih = absurd h

  pub apply_rest-Runs :
      (ts : List Tx) (sum : ℕ) (s : State) → Runs ts s → IsU64 (sum + total s) → Collected ts sum s
  apply_rest-Runs [] sum s h hs = (s, unfold apply_rest in ground arith, omega arith)
  apply_rest-Runs (t ∷ ts) sum s (ht, e, h) hs =
      Collected-step t ts sum s (apply_tx t s) refl ht hs
        (apply_tx-Transfers t s ht.1.amount_fits ht.1.fee_fits (omega arith)) e
        (λ room. apply_rest-Runs ts (sum + t.fee) (apply_tx t s).1 h room)

pub fee_total-fees :
    (ts : List Tx) (sum : ℕ) → IsU64 (sum + fees ts) → fee_total sum ts ≡ sum + fees ts
unfolding fee_total
fee_total-fees [] sum h = omega arith
fee_total-fees (t ∷ ts) sum h = ground (arith, fee_total-fees ts (sum + t.fee))
