-- ===== src/Cmd/Sending.antt =====
-- `blugold send`: what the command, the HTTP interface and the node make of it together.
use blu_gold.Base.{
  ℕ, ◌-◌, ◌/◌, ◌<◌, ◌≡◌, refl, inl, inr, ◌⊎◌, subst, Bool, true, false, not, ◌&&◌, ◌||◌, Bool-cases,
  Option-cases, Option, some, [], ◌++◌, Bytes, bytes_eq, All, length, replicate, ltb, IsU64,
  u64_mod, arith, if◌then◌else◌, Result, ok, err,
}
use blu_gold.Base.Int.{ℤ}
use blu_gold.Crypto.Interface.{Primitives}
use blu_gold.Crypto.{is_valid}
use blu_gold.Chain.Amount.{
  AmountError, bluglets, has_sign, cut, parse_uint, join_amount, parse_fraction, parse_parts,
  parse_amount, format_amount,
}
use blu_gold.Chain.Amount.RoundTrip.{IsPlain, parse_amount-format_amount}
use blu_gold.Chain.Tx.{Hash}
use blu_gold.Node.Data.{Node}
use blu_gold.Node.Wallet.{Wallet, SendError, send}
use blu_gold.Api.{
  SendRequest, not_sent, invalid_destination, sent_or_not, request_fee, send_request, post_send,
}
use blu_gold.Cmd.{CliError, not_an_amount, refused, read_reply, send_args, cmd_send}

-- A uint64, where there is a result.
abbrev Fits : Result AmountError ℕ → Type 0
Fits (ok v) = IsU64 v
Fits (err e) = Unit

join_amount-Fits : (whole frac : ℕ) → frac < u64_mod → Fits (join_amount whole frac)
unfolding join_amount
join_amount-Fits whole frac h = elim (Bool-cases (ltb ((u64_mod - 1 - frac) / bluglets) whole)) [
  | inl over ↦ rw over tt
  | inr within ↦ rw within (ground (arith, within))
]

parse_uint-lt : (s : Bytes) (v : ℕ) → parse_uint s ≡ some v → v < u64_mod
unfolding parse_uint
parse_uint-lt s v h = ground arith

parse_fraction-Fits :
    (whole : ℕ) (frac : Bytes) (found : Bool) → Fits (parse_fraction whole frac found)
unfolding parse_fraction
parse_fraction-Fits whole frac false = join_amount-Fits whole 0 (omega arith)
parse_fraction-Fits whole frac true =
    elim (Option-cases (parse_uint (frac ++ replicate (8 - length frac) 48))) [
      | inl bad ↦ rw (bad, parse_fraction) tt
      | inr (f, read) ↦
          rw (read, parse_fraction) (join_amount-Fits whole f (parse_uint-lt _ f read))
    ]

parse_parts-Fits : (parts : Bytes × Bytes × Bool) → Fits (parse_parts parts)
unfolding parse_parts
parse_parts-Fits (whole, frac, found) = elim (Bool-cases (found && ltb 8 (length frac))) [
  | inl long ↦ rw long tt
  | inr short ↦ elim (Option-cases (parse_uint whole)) [
    | inl bad ↦ rw (short, bad, parse_parts) tt
    | inr (v, read) ↦ rw (short, read, parse_parts) (parse_fraction-Fits v frac found)
  ]
]

parse_amount-Fits : (trim : Bytes → Bytes) (s : Bytes) → Fits (parse_amount trim s)
unfolding parse_amount
parse_amount-Fits trim s = elim (Bool-cases (bytes_eq (trim s) [] || has_sign (trim s))) [
  | inl bad ↦ rw bad tt
  | inr fine ↦ rw fine (parse_parts-Fits (cut (trim s)))
]

-- A fee that is an amount is not blank.
request_fee-parse_amount :
    (trim : Bytes → Bytes) (s : Bytes) (v : ℕ)
    → parse_amount trim s ≡ ok v
    → request_fee trim s ≡ ok v
unfolding request_fee parse_amount
request_fee-parse_amount trim s v h = elim (Bool-cases (bytes_eq (trim s) [])) [
  | inl blank ↦ let e = rw blank at h in cc
  | inr text ↦ rw text (rw text at h)
]

amount_cases :
    (r : Result AmountError ℕ) → ((e : AmountError) × (r ≡ err e)) ⊎ ((v : ℕ) × (r ≡ ok v))
amount_cases (err e) = inl (e, refl)
amount_cases (ok v) = inr (v, refl)

-- The answer to a call of `Send`.
abbrev pub answer : Result SendError Hash × Node → Result CliError Hash × Node
answer (ok txid, n) = (ok txid, n)
answer (err e, n) = (err (refused (not_sent e)), n)

module _ ⦃c : Primitives⦄ where
  -- The amounts that are typed, in bluglets, go to the node's `Send` at once.
  unfoldable pub direct_send :
      (Bytes → Bytes)
      → Option Wallet
      → Bytes
      → Bytes
      → Bytes
      → ℤ
      → Node
      → Result CliError Hash × Node
  direct_send trim w to amount fee now n = elim (parse_amount trim amount) [
    | err e ↦ (err (not_an_amount e), n)
    | ok a ↦ elim (parse_amount trim fee) [
      | err e ↦ (err (not_an_amount e), n)
      | ok f ↦
          if not (is_valid (trim to))
          then (err (refused invalid_destination), n)
          else answer (send w (trim to) a f now n)
    ]
  ]

  read-sent_or_not :
      (to : Bytes) (a : ℕ) (x : Result SendError Hash × Node)
      → (read_reply (some (sent_or_not to a x).0), (sent_or_not to a x).1) ≡ answer x
  unfolding read_reply sent_or_not
  read-sent_or_not to a (ok txid, n) = refl
  read-sent_or_not to a (err e, n) = refl

  module _ (trim : Bytes → Bytes) (keeps : (s : Bytes) → All IsPlain s → trim s ≡ s)
      (w : Option Wallet) (to : Bytes) (now : ℤ) (n : Node) where
    posted : SendRequest → Result CliError Hash × Node
    posted req =
        let (reply, n') = post_send trim w (some req) now n in (read_reply (some reply), n')

    typed : ℕ → ℕ → SendRequest
    typed a f = record { to = to; amount = format_amount a; fee = format_amount f }

    -- The texts of amounts arrive as the amounts.
    posted-send :
        (a f : ℕ)
        → IsU64 a
        → IsU64 f
        → posted (typed a f) ≡ (
            if not (is_valid (trim to))
            then (err (refused invalid_destination), n)
            else answer (send w (trim to) a f now n))
    unfolding posted post_send send_request read_reply typed
    posted-send a f ha hf =
        let amount = parse_amount-format_amount a ha trim keeps in
        let fee =
          request_fee-parse_amount trim (format_amount f) f
            (parse_amount-format_amount f hf trim keeps) in
        elim (Bool-cases (is_valid (trim to))) [
          | inl valid ↦
              rw (valid, amount, fee, send_request)
                (read-sent_or_not (trim to) a (send w (trim to) a f now n))
          | inr bad ↦ rw (bad, send_request) refl
        ]

-- `blugold send` and the node behind it, where trimming leaves a text of digits and points as it is
-- and the request arrives as it was sent: for any texts of the address, the amount and the fee, the
-- command gives what it would give if the amounts that the texts stand for were handed to the
-- node's `Send` at once. A text that is no amount ends the command in front of the request, and
-- an address that is not valid is refused behind it; both leave the node as it is.
pub cmd_send-direct_send :
    ⦃c : Primitives⦄ (trim : Bytes → Bytes)
    → ((s : Bytes) → All IsPlain s → trim s ≡ s)
    → (deliver : SendRequest → Option SendRequest) (w : Option Wallet) (to amount fee : Bytes)
      (now : ℤ) (n : Node)
    → ((a f : ℕ)
        → deliver (record { to = to; amount = format_amount a; fee = format_amount f })
          ≡ some (record { to = to; amount = format_amount a; fee = format_amount f }))
    → cmd_send trim deliver w to amount fee now n ≡ direct_send trim w to amount fee now n
unfolding cmd_send direct_send send_args posted typed
cmd_send-direct_send trim keeps deliver w to amount fee now n arrives =
    elim (amount_cases (parse_amount trim amount)) [
      | inl (e, bad) ↦ rw (bad, send_args, cmd_send, direct_send) refl
      | inr (a, read) ↦ elim (amount_cases (parse_amount trim fee)) [
        | inl (e, bad) ↦ rw (read, bad, send_args, cmd_send, direct_send) refl
        | inr (f, read') ↦
            rw (read, read', arrives a f, send_args, cmd_send, direct_send)
              (posted-send trim keeps w to now n a f
                (subst Fits read (parse_amount-Fits trim amount))
                (subst Fits read' (parse_amount-Fits trim fee)))
      ]
    ]
