-- ===== src/Node/Ledger/Supply.antt =====
-- The money of a chain is the sum of its rewards.
use blu_gold.Base.{
  ℕ, ◌+◌, ◌≡◌, ◌≢◌, Bool-cases, inl, inr, Option-cases, List, [], ◌∷◌, some, All, arith, IsU64,
  ◌==◌,
}
use blu_gold.Crypto.Interface.{Primitives}
use blu_gold.Chain.Params.{Params}
use blu_gold.Chain.Block.{Block}
use blu_gold.State.Monad.{State, Outcome, done, failed, panic}
use blu_gold.State.{apply_block}
use blu_gold.State.Total.{total}
use blu_gold.State.BlockMoney.{Mints, apply_block-Mints}
use blu_gold.Node.Data.{Entry, Node}
use blu_gold.Node.Switch.Money.{reward_of, rewards, BlockInRange, genesis_free, paid}
use blu_gold.Node.Run.{Reached}
use blu_gold.Node.Ledger.{finished, entry_state, chain_state}
use blu_gold.Node.Ledger.Paths.{path_in}
use blu_gold.Node.Ledger.Inserting.{NoZeroHash}
use blu_gold.Node.Ledger.Booting.{FromGenesis}
use blu_gold.Node.Ledger.Running.{Reached-Follows}

finished-Mints :
    (money reward : ℕ) (q : Outcome (Unit {0}) × State) (s : State)
    → Mints money reward q
    → finished q ≡ some s
    → total s ≡ money + reward
unfolding finished
finished-Mints money reward (done _, s') s m q = ground (arith, m, q)
finished-Mints money reward (failed e, s') s m q = absurd (cc (q))
finished-Mints money reward (panic, s') s m q = absurd m

module _ ⦃c : Primitives⦄ where
  entry_state-total :
      (p : Params) (e : Entry) (s s' : State)
      → p.halving_interval ≢ 0
      → BlockInRange e
      → IsU64 (total s + reward_of p e)
      → entry_state p e s ≡ some s'
      → total s' ≡ total s + reward_of p e
  unfolding entry_state
  entry_state-total p e s s' hi h room q = elim (Bool-cases (e.block.height == 0)) [
    | inl z ↦ ground (arith, q, z, genesis_free p e z)
    | inr nz ↦
        finished-Mints (total s) (reward_of p e) (apply_block e.block p s) s'
          (apply_block-Mints e.block p s (paid p e hi nz) h room) (ground (arith, q, nz))
  ]

  chain_state-total :
      (p : Params) (path : List Entry) (s : State)
      → p.halving_interval ≢ 0
      → All BlockInRange path
      → IsU64 (rewards p path)
      → chain_state p path ≡ some s
      → total s ≡ rewards p path
  unfolding chain_state
  chain_state-total p [] s hi h room q = ground (arith, q)
  chain_state-total p (e ∷ path) s hi (he, h) room q = elim (Option-cases (chain_state p path)) [
    | inl none_yet ↦ absurd (cc (q, none_yet))
    | inr (s', before) ↦
        let so_far = chain_state-total p path s' hi h (omega arith) before in
        omega (
          arith,
          so_far,
          entry_state-total p e s' s hi he (omega (arith, so_far)) (ground (arith, q, before)),
        )
  ]

  -- In a node that `New` has returned, after any calls: the balances of the active chain add up to
  -- exactly the rewards of its blocks, where no block has the hash of 32 zero bytes, the store was
  -- empty or began with a block that stands on none, the halving interval is not zero, the
  -- transactions of the chain hold uint64 values and the rewards fit 64 bits.
  pub Reached-supply :
      (p : Params) (blocks : List Block) (n : Node) (t : Entry)
      → NoZeroHash
      → FromGenesis blocks
      → Reached p blocks n
      → n.tip ≡ some t
      → n.params.halving_interval ≢ 0
      → All BlockInRange (path_in n.blocks t)
      → IsU64 (rewards n.params (path_in n.blocks t))
      → total n.state ≡ rewards n.params (path_in n.blocks t)
  Reached-supply p blocks n t real from r tip hi h room =
      chain_state-total n.params (path_in n.blocks t) n.state hi h room
        ((Reached-Follows real p blocks from r).current t tip).made
