-- ===== src/State/Matching.antt =====
-- States that hold the same accounts, as `Account` sees them.
use blu_gold.Base.{◌≡◌, refl, sym, ◌∙◌, arith}
use blu_gold.Crypto.{Address}
use blu_gold.Chain.Tx.{Tx}
use blu_gold.State.Monad.{State, Outcome, done, failed, panic}
use blu_gold.State.{account}
use blu_gold.State.Total.{total}
use blu_gold.State.Transfer.{Accepts, Transfers, moved}

-- The same accounts and the same money; an account may be missing where the other is empty.
abbrev pub Matches : State → State → Type 0
Matches s s' = (total s ≡ total s') × ((a : Address) → account a s ≡ account a s')

Accepts-match : (t : Tx) (s s' : State) → Matches s s' → Accepts t s → Accepts t s'
Accepts-match t s s' (money, each) a = record {
  transfer = a.transfer;
  in_order = rw (sym (each t.from)) a.in_order;
  covered = rw (sym (each t.from)) a.covered;
}

pub match_sym : (s s' : State) → Matches s s' → Matches s' s
match_sym s s' (money, each) = (sym money, λ a. sym (each a))

pub match_trans : (s s' s'' : State) → Matches s s' → Matches s' s'' → Matches s s''
match_trans s s' s'' (money, each) (money', each') = (money ∙ money', λ a. each a ∙ each' a)

moved_match : (t : Tx) (s s' : State) (b : Address) → Matches s s' → moved t s b ≡ moved t s' b
moved_match t s s' b (money, each) = rw (each t.from, each t.to, each b) refl

pub applied_match :
    (t : Tx) (s s' w : State) (q : Outcome (Unit {0}) × State)
    → Matches s s'
    → Transfers t s (done tt, w)
    → Transfers t s' q
    → (q.0 ≡ done tt) × Matches w q.1
applied_match t s s' w (done _, w') m (a, money, each) (a', money', each') = (
  refl,
  (omega (arith, money, money', m.0), λ b. each b ∙ (moved_match t s s' b m ∙ sym (each' b))),
)
applied_match t s s' w (failed e, w') m (a, money, each) (no_fit, rest, same) =
    absurd (no_fit (Accepts-match t s s' m a))
applied_match t s s' w (panic, w') m h h' = absurd h'
