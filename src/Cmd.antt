-- ===== src/Cmd.antt =====
-- cmd/blugold/main.go: the commands, behind the parsing of their flags.
pub mod Wallets
pub mod Sending
use blu_gold.Base.{
  ℕ, ◌-◌, not, Option, none, some, List, [], ◌∷◌, ◌++◌, Bytes, bytes_eq, length, take, drop, ltb,
  ◌==◌, if◌then◌else◌, Result, ok, err,
}
use blu_gold.Base.Int.{ℤ, pos, leb_ℤ}
use blu_gold.Crypto.Interface.{Primitives}
use blu_gold.Crypto.{Address}
use blu_gold.Chain.Amount.{AmountError, parse_amount, format_amount}
use blu_gold.Chain.Tx.{Hash}
use blu_gold.Node.Data.{Node}
use blu_gold.Node.Wallet.{Wallet}
use blu_gold.Api.{SendRequest, ApiError, Reply, sent_reply, http_error, post_send}

-- What ends a command by `fatalf`.
pub data CliError : Type 0 where
  usage unreachable unexpected : CliError
  not_an_amount : AmountError → CliError
  refused : ApiError → CliError

abbrev pub in_front : ℕ → List Bytes → List Bytes
in_front b [] = (b ∷ []) ∷ []
in_front b (s ∷ ss) = (b ∷ s) ∷ ss

-- `dataDir`, for BLUGOLD_DATA, the home directory, and `filepath.Join`.
unfoldable pub data_dir : (Bytes → Bytes → Bytes) → Bytes → Option Bytes → Bytes
data_dir join env home = if not (bytes_eq env []) then env else elim home [
  | none ↦
      b'.' ∷ b'/' ∷ b'b' ∷ b'l' ∷ b'u' ∷ b'g' ∷ b'o' ∷ b'l' ∷ b'd' ∷ b'-' ∷ b'd' ∷ b'a' ∷ b't'
      ∷ b'a' ∷ []
  | some h ↦ join h (b'.' ∷ b'b' ∷ b'l' ∷ b'u' ∷ b'g' ∷ b'o' ∷ b'l' ∷ b'd' ∷ [])
]

-- `strings.Split(s, ",")`
unfoldable pub split_commas : Bytes → List Bytes
split_commas [] = [] ∷ []
split_commas (b ∷ s) = let rest = split_commas s in if b == b',' then [] ∷ rest else in_front b rest

-- The seeds of `parseNodeFlags`.
unfoldable pub parse_seeds : (Bytes → Bytes) → List Bytes → List Bytes
parse_seeds trim_space [] = []
parse_seeds trim_space (s ∷ ss) =
    let rest = parse_seeds trim_space ss in
    if bytes_eq (trim_space s) [] then rest else trim_space s ∷ rest

-- `discoverAdvertise`, for the port of `net.SplitHostPort`, the address of `detectLANIP`, and
-- `net.JoinHostPort`.
unfoldable pub discover_advertise :
    (Bytes → Bytes → Bytes) → (Bytes → Option Bytes) → Bytes → Bytes → Bytes
discover_advertise join split_port lan_ip listen =
    if bytes_eq lan_ip []
    then listen
    else join lan_ip
        (elim (split_port listen) [ none ↦ b'7' ∷ b'0' ∷ b'0' ∷ b'7' ∷ [] | some port ↦ port ])

-- The count of `cmdScan`, for what `strconv.Atoi` gives of an argument.
unfoldable pub scan_count : Option (Option ℤ) → Result CliError ℤ
scan_count none = ok (pos 10)
scan_count (some none) = err usage
scan_count (some (some n)) = if leb_ℤ n (pos 0) then err usage else ok n

-- `shortAddr`
unfoldable pub short_addr : Address → Bytes
short_addr a =
    if ltb 12 (length a)
    then take 8 a ++ ((b'.' ∷ b'.' ∷ b'.' ∷ []) ++ drop (length a - 4) a)
    else a

-- What `cmdSend` makes of a reply.
unfoldable pub read_reply : Option Reply → Result CliError Hash
read_reply none = err unreachable
read_reply (some (sent_reply txid amount to)) = ok txid
read_reply (some (http_error e)) = err (refused e)
read_reply (some _) = err unexpected

-- The request of `cmdSend`.
unfoldable pub send_args : (Bytes → Bytes) → Bytes → Bytes → Bytes → Result CliError SendRequest
send_args trim_space to amount fee = elim (parse_amount trim_space amount) [
  | err e ↦ err (not_an_amount e)
  | ok a ↦ elim (parse_amount trim_space fee) [
    | err e ↦ err (not_an_amount e)
    | ok f ↦ ok (record { to = to; amount = format_amount a; fee = format_amount f })
  ]
]

module _ ⦃c : Primitives⦄ where
  -- `cmdSend`, and the node that it talks to. `deliver` is what the server decodes of a body.
  unfoldable pub cmd_send :
      (Bytes → Bytes)
      → (SendRequest → Option SendRequest)
      → Option Wallet
      → Bytes
      → Bytes
      → Bytes
      → ℤ
      → Node
      → Result CliError Hash × Node
  cmd_send trim_space deliver w to amount fee now n = elim (send_args trim_space to amount fee) [
    | err e ↦ (err e, n)
    | ok req ↦
        let (reply, n') = post_send trim_space w (deliver req) now n in
        (read_reply (some reply), n')
  ]
