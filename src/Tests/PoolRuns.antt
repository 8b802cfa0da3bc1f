-- ===== src/Tests/PoolRuns.antt =====
-- Runs of the mempool.
use blu_gold.Base.{◌≡◌, refl, false, some, [], ◌∷◌, arith, ok}
use blu_gold.Chain.Tx.{tx_hash}
use blu_gold.State.{apply_tx}
use blu_gold.State.BlockMoney.{InRange}
use blu_gold.Node.Data.{Node}
use blu_gold.Node.Pool.{revalidate_mempool}
use blu_gold.Node.Pool.Coherent.{Coherent, listed, revalidate_mempool-Coherent}
use blu_gold.Node.Transactions.{add_tx}
use blu_gold.Node.Transactions.Added.{StaysCoherent, add_tx-StaysCoherent}
use blu_gold.Tests.Sample.{toy, running, payment, second_payment, rich_alice, started}

payment-InRange : InRange payment
payment-InRange = record { amount_fits = omega arith; fee_fits = omega arith }

second_payment-InRange : InRange second_payment
second_payment-InRange = record { amount_fits = omega arith; fee_fits = omega arith }

-- The second payment stands first in the order, so it does not apply and is dropped.
revalidate_mempool-Coherent_example :
    Coherent (revalidate_mempool started) × ((revalidate_mempool started).crashed ≡ false)
unfolding running
revalidate_mempool-Coherent_example =
    revalidate_mempool-Coherent started (second_payment-InRange, (payment-InRange, tt))
      ((refl, tt), (tt, tt)) (omega arith)

kept : (revalidate_mempool started).mempool_order ≡ tx_hash payment ∷ []
unfolding running
kept = refl

-- The node with the first payment in its mempool.
abbrev settled : Node
settled = record started {
  mempool_tx = (tx_hash payment, payment) ∷ [];
  mempool_order = tx_hash payment ∷ [];
  pending = some (apply_tx payment rich_alice).1;
  pending_dirty = false;
}

settled-Coherent : Coherent settled
unfolding running
settled-Coherent =
    (refl, ((apply_tx payment rich_alice).1, refl, ((refl, (refl, λ a. refl)), omega arith)))

unlisted : listed (tx_hash second_payment) settled.mempool_order ≡ false
unfolding running listed
unlisted = refl

add_tx-StaysCoherent_example : StaysCoherent (add_tx second_payment [] settled)
add_tx-StaysCoherent_example =
    add_tx-StaysCoherent second_payment [] settled second_payment-InRange unlisted settled-Coherent

taken : (add_tx second_payment [] settled).0 ≡ ok tt
unfolding running
taken = refl
