-- ===== src/Node/Pool/Coherent.antt =====
-- The mempool applies to the state of the active chain, in its order.
use blu_gold.Base.{
  ◌≡◌, refl, sym, Bool, false, ◌||◌, some, List, [], ◌∷◌, ◌++◌, All, arith, bytes_eq, bytes_eq_sym,
  IsU64,
}
use blu_gold.Base.Dict.{Dict, insert, lookup-insert, lookup-insert_self}
use blu_gold.Chain.Tx.{Tx, Hash}
use blu_gold.State.Monad.{State, Outcome, done, failed, panic}
use blu_gold.State.{apply_tx}
use blu_gold.State.Total.{total}
use blu_gold.State.Transfer.{Transfers, apply_tx-Transfers}
use blu_gold.State.Matching.{Matches, match_sym, applied_match, match_trans}
use blu_gold.State.BlockMoney.{InRange}
use blu_gold.Node.Data.{Node}
use blu_gold.Node.Pool.{Kept, keep, keep_applied, none_kept, pooled, keep_all, revalidate_mempool}

unfoldable pub listed : Hash → List Hash → Bool
listed h [] = false
listed h (g ∷ order) = bytes_eq g h || listed h order

-- Every transaction applies, one after the other, and `p` is the state behind them.
abbrev pub Applies : List (Hash × Tx) → State → State → Type 0
Applies [] s p = Matches s p
Applies ((h, t) ∷ rest) s p = ((apply_tx t s).0 ≡ done tt) × Applies rest (apply_tx t s).1 p

pub Applies-trans :
    (xs : List (Hash × Tx)) (s p q : State) → Applies xs s p → Matches p q → Applies xs s q
Applies-trans [] s p q a m = match_trans s p q a m
Applies-trans ((h, t) ∷ xs) s p q (e, a) m = (e, Applies-trans xs (apply_tx t s).1 p q a m)

pub Applies-snoc :
    (xs : List (Hash × Tx)) (h : Hash) (t : Tx) (s p q : State)
    → InRange t
    → IsU64 (total p)
    → Applies xs s p
    → apply_tx t p ≡ (done tt, q)
    → Applies (xs ++ ((h, t) ∷ [])) s q
Applies-snoc [] h t s p q ht hp m e =
    let (fine, same) =
      applied_match t p s q (apply_tx t s) (match_sym s p m)
        (rw e at (apply_tx-Transfers t p ht.amount_fits ht.fee_fits hp))
        (apply_tx-Transfers t s ht.amount_fits ht.fee_fits (omega (arith, m.0))) in
    (fine, match_sym q (apply_tx t s).1 same)
Applies-snoc ((g, u) ∷ xs) h t s p q ht hp (d, a) e =
    (d, Applies-snoc xs h t (apply_tx u s).1 p q ht hp a e)

-- A hash that is not in the order comes last.
pub pooled-snoc :
    (h : Hash) (t : Tx) (txs : Dict Tx) (order : List Hash)
    → listed h order ≡ false
    → pooled (insert h t txs) (order ++ (h ∷ [])) ≡ pooled txs order ++ ((h, t) ∷ [])
unfolding pooled listed
pooled-snoc h t txs [] l = ground (arith, lookup-insert_self h t txs)
pooled-snoc h t txs (g ∷ order) l =
    ground (arith, bytes_eq_sym h g, lookup-insert h g t txs, pooled-snoc h t txs order)

listed-snoc :
    (h g : Hash) (order : List Hash)
    → listed h (order ++ (g ∷ [])) ≡ (listed h order || bytes_eq g h)
unfolding listed
listed-snoc h g [] = ground arith
listed-snoc h g (k ∷ order) = ground (arith, listed-snoc h g order)

-- The hashes of the items differ from each other.
abbrev pub Apart : List (Hash × Tx) → Type 0
Apart [] = Unit {0}
Apart ((h, t) ∷ rest) = All (λ (p : Hash × Tx). bytes_eq h p.0 ≡ false) rest × Apart rest

-- The hashes of the items are not in the order.
abbrev NotIn : List Hash → List (Hash × Tx) → Type 0
NotIn order items = All (λ (p : Hash × Tx). listed p.0 order ≡ false) items

NotIn-snoc :
    (h : Hash) (order : List Hash) (items : List (Hash × Tx))
    → All (λ (p : Hash × Tx). bytes_eq h p.0 ≡ false) items
    → NotIn order items
    → NotIn (order ++ (h ∷ [])) items
NotIn-snoc h order [] a l = tt
NotIn-snoc h order ((g, u) ∷ items) (a, apart) (l, ls) =
    (ground (arith, a, l, listed-snoc g h order), NotIn-snoc h order items apart ls)

-- What is kept so far applies to `s`, and no panic has happened.
abbrev Keeps : State → Kept → Type 0
Keeps s k =
    Applies (pooled k.keep_tx k.keep_order) s k.work × (IsU64 (total k.work) × (k.fault ≡ false))

-- One round, for any outcome of `ApplyTx`: the kept hashes change at most by the item's.
keep-Keeps :
    (h : Hash) (t : Tx) (s : State) (k : Kept) (items : List (Hash × Tx))
    (q : Outcome (Unit {0}) × State)
    → apply_tx t k.work ≡ q
    → Transfers t k.work q
    → InRange t
    → listed h k.keep_order ≡ false
    → All (λ (p : Hash × Tx). bytes_eq h p.0 ≡ false) items
    → NotIn k.keep_order items
    → Keeps s k
    → Keeps s (keep h t k q) × NotIn (keep h t k q).keep_order items
unfolding keep
keep-Keeps h t s k items (done _, w) e (a, money, each) ht l apart out (runs, (fits, fine)) = (
  (
    rw (pooled-snoc h t k.keep_tx k.keep_order l)
        (Applies-snoc (pooled k.keep_tx k.keep_order) h t s k.work w ht fits runs e),
    (omega (arith, money), fine),
  ),
  NotIn-snoc h k.keep_order items apart out,
)
keep-Keeps h t s k items (failed x, w) e (no_fit, money, each) ht l apart out (runs, (fits, fine)) =
    (
      (
        Applies-trans (pooled k.keep_tx k.keep_order) s k.work w runs
            (sym money, λ a. sym (each a)),
        (omega (arith, money), fine),
      ),
      out,
    )
keep-Keeps h t s k items (panic, w) e bad ht l apart out runs = absurd bad

keep_all-Keeps :
    (items : List (Hash × Tx)) (s : State) (k : Kept)
    → All (λ (p : Hash × Tx). InRange p.1) items
    → Apart items
    → NotIn k.keep_order items
    → Keeps s k
    → Keeps s (keep_all items k)
unfolding keep_all keep_applied
keep_all-Keeps [] s k hr ap out h = h
keep_all-Keeps ((g, t) ∷ items) s k (ht, hr) (one, ap) (l, out) h =
    let (now, rest) =
      keep-Keeps g t s k items (apply_tx t k.work) refl
        (apply_tx-Transfers t k.work ht.amount_fits ht.fee_fits h.1.0) ht l one out h in
    keep_all-Keeps items s (keep g t k (apply_tx t k.work)) hr ap rest now

none_listed : (items : List (Hash × Tx)) → NotIn [] items
unfolding listed
none_listed [] = tt
none_listed (p ∷ items) = (refl, none_listed items)

-- The transactions of the mempool, in its order.
abbrev pub pool_of : Node → List (Hash × Tx)
pool_of n = pooled n.mempool_tx n.mempool_order

-- The mempool and the pending state fit together: every transaction applies in the mempool's order
-- to the state of the active chain, and the pending state has the accounts behind them.
abbrev pub Coherent : Node → Type 0
Coherent n =
    (n.pending_dirty ≡ false)
    × ((p : State) × (n.pending ≡ some p) × (Applies (pool_of n) n.state p × IsU64 (total p)))

-- `revalidateMempoolLocked`, for a mempool with uint64 fields that lists no hash twice, at a state
-- whose money fits 64 bits: it does not panic, and behind it every transaction that is left
-- applies in order to the state of the active chain, and the pending state has the accounts
-- behind them and money that fits 64 bits.
pub revalidate_mempool-Coherent :
    (n : Node)
    → All (λ (p : Hash × Tx). InRange p.1) (pool_of n)
    → Apart (pool_of n)
    → IsU64 (total n.state)
    → Coherent (revalidate_mempool n) × ((revalidate_mempool n).crashed ≡ n.crashed)
unfolding revalidate_mempool
revalidate_mempool-Coherent n hr ap hs =
    let (runs, (fits, fine)) =
      keep_all-Keeps (pool_of n) n.state (none_kept n.state) hr ap (none_listed (pool_of n))
        (unfold pooled in ((refl, λ a. refl), (hs, refl))) in
    ((refl, (_, refl, (runs, fits))), rw fine (ground arith))
