-- ===== src/Node/Switch/Money.antt =====
-- The money that a replay of blocks creates.
use blu_gold.Base.{
  ℕ, ◌+◌, ◌≡◌, ◌≢◌, refl, sym, ◌∙◌, true, false, Bool-cases, inl, inr, List, [], ◌∷◌, none, some,
  All, Result, ok, err, arith, IsU64, ◌==◌, if◌then◌else◌,
}
use blu_gold.Crypto.Interface.{Primitives}
use blu_gold.Chain.Params.{Params, reward_at}
use blu_gold.State.Monad.{State, Outcome, done, failed, panic}
use blu_gold.State.{apply_block}
use blu_gold.State.Total.{total}
use blu_gold.State.BlockMoney.{InRange, Mints, apply_block-Mints}
use blu_gold.Node.Data.{Entry, Node, NodeError, died}
use blu_gold.Node.Switch.{checkpoint, replay, replay_step}

-- The reward of a block; the genesis block has none.
unfoldable pub reward_of : Params → Entry → ℕ
reward_of p e =
    if e.block.height == 0
    then 0
    else elim (reward_at p e.block.height) [ none ↦ 0 | some reward ↦ reward ]

abbrev pub rewards : Params → List Entry → ℕ
rewards p [] = 0
rewards p (e ∷ path) = reward_of p e + rewards p path

-- What a replay has done that had `money` to start from, and blocks with `reward` in rewards.
abbrev pub Replays : ℕ → ℕ → Result NodeError State × Node → Type 0
Replays money reward (ok s, n) = total s ≡ money + reward
Replays money reward (err e, n) = e ≢ died

-- The uint64 fields of the transactions of a block hold uint64 values.
abbrev pub BlockInRange : Entry → Type 0
BlockInRange e = All InRange e.block.txs

params-checkpoint : (e : Entry) (s : State) (n : Node) → (checkpoint e s n).params ≡ n.params
unfolding checkpoint
params-checkpoint e s n = ground arith

Replays-assoc :
    (money reward more : ℕ) (q : Result NodeError State × Node)
    → Replays (money + reward) more q
    → Replays money (reward + more) q
Replays-assoc money reward more (ok s, n) h = omega (arith, h)
Replays-assoc money reward more (err e, n) h = h

pub genesis_free : (p : Params) (e : Entry) → (e.block.height == 0) ≡ true → reward_of p e ≡ 0
unfolding reward_of
genesis_free p e z = ground (arith, z)

-- The reward where the halving interval is not zero.
pub paid :
    (p : Params) (e : Entry)
    → p.halving_interval ≢ 0
    → (e.block.height == 0) ≡ false
    → reward_at p e.block.height ≡ some (reward_of p e)
unfolding reward_at reward_of
paid p e hi nz = ground (arith, nz)

module _ ⦃c : Primitives⦄ where
  Mints→Replays :
      (rest : State → Node → Result NodeError State × Node) (e : Entry) (money reward more : ℕ)
      (q : Outcome (Unit {0}) × State) (n : Node)
      → Mints money reward q
      → ((s : State)
          → total s ≡ money + reward
          → Replays money (reward + more) (rest s (checkpoint e s n)))
      → Replays money (reward + more) (replay_step rest e q n)
  unfolding replay_step
  Mints→Replays rest e money reward more (done _, s) n h k = k s h
  Mints→Replays rest e money reward more (failed x, s) n h k = λ q. absurd (cc q)
  Mints→Replays rest e money reward more (panic, s) n h k = absurd h

  replay_params-Replays :
      (p : Params) (path : List Entry) (s : State) (n : Node)
      → n.params ≡ p
      → p.halving_interval ≢ 0
      → All BlockInRange path
      → IsU64 (total s + rewards p path)
      → Replays (total s) (rewards p path) (replay path s n)
  unfolding replay
  replay_params-Replays p [] s n same hi h room = omega arith
  replay_params-Replays p (e ∷ path) s n same hi (he, h) room =
      elim (Bool-cases (e.block.height == 0)) [
        | inl z ↦
            let free = genesis_free p e z in
            rw (z, free)
              (Replays-assoc (total s) 0 (rewards p path) _ (
                let none_yet : total s ≡ total s + 0 = omega arith in
                rw (sym none_yet)
                  (replay_params-Replays p path s n same hi h (omega (arith, free)))))
        | inr nz ↦ rw nz (
            Mints→Replays (replay path) e (total s) (reward_of p e) (rewards p path)
              (apply_block e.block n.params s) n
              (rw same (apply_block-Mints e.block p s (paid p e hi nz) he (omega arith)))
              (λ s' m. Replays-assoc (total s) (reward_of p e) (rewards p path) _ (
                rw (sym m) (
                  replay_params-Replays p path s' (checkpoint e s' n)
                    (params-checkpoint e s' n ∙ same) hi h (omega (arith, m))))))
      ]

  -- `replayLocked` of blocks whose transactions hold uint64 values, with a halving interval that is
  -- not zero, where the money and the rewards of the blocks fit 64 bits, never panics; where it
  -- ends, the money has grown by exactly the rewards of the blocks.
  pub replay-Replays :
      (path : List Entry) (s : State) (n : Node)
      → n.params.halving_interval ≢ 0
      → All BlockInRange path
      → IsU64 (total s + rewards n.params path)
      → Replays (total s) (rewards n.params path) (replay path s n)
  replay-Replays path s n hi h room = replay_params-Replays n.params path s n refl hi h room
