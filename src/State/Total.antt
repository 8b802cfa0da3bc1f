-- ===== src/State/Total.antt =====
-- The money in a state, and how a write to one account moves it.
use blu_gold.Base.{ℕ, ◌+◌, ◌≤◌, ◌≡◌, [], ◌∷◌, arith, bytes_eq, if◌then◌else◌}
use blu_gold.Base.Dict.{lookup, insert, lookup-insert}
use blu_gold.Crypto.{Address}
use blu_gold.State.Monad.{Account, State}
use blu_gold.State.{account}

-- The sum of all balances, exact.
abbrev pub total : State → ℕ
total [] = 0
total ((a, acct) ∷ s) = acct.balance + total s

pub account-insert :
    (a b : Address) (v : Account) (s : State)
    → account b (insert a v s) ≡ (if bytes_eq a b then v else account b s)
unfolding account
account-insert a b v s = ground (arith, lookup-insert a b v s)

pub total-insert :
    (a : Address) (v : Account) (s : State)
    → total (insert a v s) + (account a s).balance ≡ total s + v.balance
unfolding account insert lookup
total-insert a v [] = omega arith
total-insert a v ((b, w) ∷ s) = ground (arith, total-insert a v s)

pub balance-le-total : (a : Address) (s : State) → (account a s).balance ≤ total s
unfolding account lookup
balance-le-total a [] = omega arith
balance-le-total a ((b, w) ∷ s) = ground (arith, balance-le-total a s)
