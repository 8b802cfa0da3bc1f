-- ===== src/Node/Switch/Orphans.antt =====
-- The choice of the tip does not touch the orphans.
use blu_gold.Base.{
  ℕ, zero, suc, ◌≡◌, refl, ◌∙◌, arith, List, [], ◌∷◌, Result, ok, err, ◌==◌, Bool-cases, inl, inr,
}
use mathlib.Core.List.{foldl}
use blu_gold.Crypto.Interface.{Primitives}
use blu_gold.Chain.Tx.{Tx}
use blu_gold.Chain.Block.{Block}
use blu_gold.State.Monad.{State, Outcome, done, failed, panic}
use blu_gold.Node.Data.{Entry, Node, NodeError}
use blu_gold.Node.Tree.{children, reject_one, reject_from, reject_subtree}
use blu_gold.Node.Pool.{drop_confirmed, rebuild_mempool, revalidate_mempool}
use blu_gold.Node.Switch.{
  checkpoint, publish, replay, replay_step, commit_chain, first_chain, extend_chain, reorganised,
  reorganise, switch_chain, select_tip,
}

foldl-orphans :
    (f : Node → Entry → Node) (es : List Entry) (n : Node)
    → ((m : Node) (e : Entry) → (f m e).orphans ≡ m.orphans)
    → (foldl f n es).orphans ≡ n.orphans
foldl-orphans f [] n h = refl
foldl-orphans f (e ∷ es) n h = foldl-orphans f es (f n e) h ∙ h n e

reject_from-orphans : (fuel : ℕ) (e : Entry) (n : Node) → (reject_from fuel e n).orphans ≡ n.orphans
unfolding reject_from
reject_from-orphans zero e n = refl
reject_from-orphans (suc fuel) e n =
    foldl-orphans _ (children e.hash (reject_one e n).blocks) (reject_one e n)
      (λ m child. reject_from-orphans fuel child m)

reject_subtree-orphans : (e : Entry) (n : Node) → (reject_subtree e n).orphans ≡ n.orphans
unfolding reject_subtree
reject_subtree-orphans e n = reject_from-orphans _ e n

checkpoint-orphans : (e : Entry) (s : State) (n : Node) → (checkpoint e s n).orphans ≡ n.orphans
unfolding checkpoint
checkpoint-orphans e s n = ground arith

publish-orphans : (b : Block) (n : Node) → (publish b n).orphans ≡ n.orphans
unfolding publish
publish-orphans b n = ground arith

module _ ⦃c : Primitives⦄ where
  replay_step-orphans :
      (rest : State → Node → Result NodeError State × Node) (e : Entry)
      (q : Outcome (Unit {0}) × State) (n : Node)
      → ((s : State) (m : Node) → (rest s m).1.orphans ≡ m.orphans)
      → (replay_step rest e q n).1.orphans ≡ n.orphans
  unfolding replay_step
  replay_step-orphans rest e (done _, s) n h = h s (checkpoint e s n) ∙ checkpoint-orphans e s n
  replay_step-orphans rest e (failed x, s) n h = reject_subtree-orphans e n
  replay_step-orphans rest e (panic, s) n h = refl

  replay-orphans :
      (path : List Entry) (s : State) (n : Node) → (replay path s n).1.orphans ≡ n.orphans
  unfolding replay
  replay-orphans [] s n = refl
  replay-orphans (e ∷ path) s n = elim (Bool-cases (e.block.height == 0)) [
    | inl z ↦ rw z (replay-orphans path s n)
    | inr z ↦ rw z (replay_step-orphans (replay path) e _ n (λ s' m. replay-orphans path s' m))
  ]

  drop_confirmed-orphans : (e : Entry) (n : Node) → (drop_confirmed e n).orphans ≡ n.orphans
  unfolding drop_confirmed revalidate_mempool
  drop_confirmed-orphans e n = ground arith

  commit_chain-orphans :
      (e : Entry) (s : State) (path : List Entry) (txs : List Tx) (n : Node)
      → (commit_chain e s path txs n).orphans ≡ n.orphans
  unfolding commit_chain rebuild_mempool
  commit_chain-orphans e s path txs n = refl

  first_chain-orphans :
      (e : Entry) (path : List Entry) (q : Result NodeError State × Node)
      → (first_chain e path q).1.orphans ≡ q.1.orphans
  unfolding first_chain
  first_chain-orphans e path (ok s, n) = commit_chain-orphans e s path [] n
  first_chain-orphans e path (err x, n) = refl

  extend_chain-orphans :
      (e : Entry) (q : Outcome (Unit {0}) × State) (n : Node)
      → (extend_chain e q n).1.orphans ≡ n.orphans
  unfolding extend_chain
  extend_chain-orphans e (done _, s) n =
      publish-orphans e.block _ ∙ (drop_confirmed-orphans e _ ∙ checkpoint-orphans e s n)
  extend_chain-orphans e (failed x, s) n = reject_subtree-orphans e n
  extend_chain-orphans e (panic, s) n = refl

  reorganised-orphans :
      (e : Entry) (path : List Entry) (txs : List Tx) (q : Result NodeError State × Node)
      → (reorganised e path txs q).1.orphans ≡ q.1.orphans
  unfolding reorganised
  reorganised-orphans e path txs (ok s, n) =
      publish-orphans e.block _ ∙ commit_chain-orphans e s path txs n
  reorganised-orphans e path txs (err x, n) = refl

  reorganise-orphans : (tip e : Entry) (n : Node) → (reorganise tip e n).1.orphans ≡ n.orphans
  unfolding reorganise
  reorganise-orphans tip e n = grind (arith, reorganised-orphans, replay-orphans)

  switch_chain-orphans : (e : Entry) (n : Node) → (switch_chain e n).1.orphans ≡ n.orphans
  unfolding switch_chain
  switch_chain-orphans e n =
      grind (arith, reorganise-orphans, extend_chain-orphans, first_chain-orphans, replay-orphans)

  pub select_tip-orphans : (n : Node) → (select_tip n).orphans ≡ n.orphans
  unfolding select_tip
  select_tip-orphans n = grind (arith, switch_chain-orphans)
