-- ===== src/Tests/StateRuns.antt =====
use blu_gold.Base.{◌≡◌, refl, [], ◌∷◌, arith}
use blu_gold.Chain.Params.{default_params}
use blu_gold.State.Monad.{done, failed, bad_nonce}
use blu_gold.State.{apply_tx, apply_block}
use blu_gold.State.Transfer.{Transfers, apply_tx-Transfers}
use blu_gold.State.Once.{apply_tx_once}
use blu_gold.State.BlockMoney.{Mints, apply_block-Mints}
use blu_gold.State.Twin.{apply_block-twin}
use blu_gold.Chain.Block.Twin.{with_txs}
use blu_gold.Tests.Sample.{toy, running, payment, second_payment, coinbase, block_one, rich_alice}

ran : (apply_block block_one default_params rich_alice).0 ≡ done tt
unfolding running
ran = refl

apply_block-Mints_example : Mints 1000 100_000_000 (apply_block block_one default_params rich_alice)
unfolding running
apply_block-Mints_example =
    apply_block-Mints block_one default_params rich_alice refl (omega arith) (omega arith)

apply_tx-Transfers_example : Transfers payment rich_alice (apply_tx payment rich_alice)
apply_tx-Transfers_example =
    apply_tx-Transfers payment rich_alice (omega arith) (omega arith) (omega arith)

apply_tx_once_example : (apply_tx payment (apply_tx payment rich_alice).1).0 ≡ failed bad_nonce
unfolding running
apply_tx_once_example =
    apply_tx_once payment rich_alice (omega arith) (omega arith) (omega arith) (omega arith) refl

apply_block-twin_example :
    (apply_block
      (with_txs block_one (coinbase ∷ payment ∷ second_payment ∷ second_payment ∷ []))
      default_params
      rich_alice).0
    ≡ failed bad_nonce
unfolding running
apply_block-twin_example =
    apply_block-twin default_params block_one rich_alice coinbase (payment ∷ []) second_payment refl
      (omega arith) (omega arith) (omega arith) (omega arith) refl
