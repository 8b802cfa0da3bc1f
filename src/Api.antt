-- ===== src/Api.antt =====
-- internal/api/api.go: the handlers. A request comes with its query and its JSON decoded, and a
-- reply is the value that is written as JSON; `strings.TrimSpace` is a parameter.
use blu_gold.Base.{
  ℕ, ◌||◌, not, Option, none, some, List, [], ◌∷◌, ◌++◌, map, Bytes, bytes_eq, if◌then◌else◌,
  Result, ok, err,
}
use blu_gold.Base.Int.{ℤ, pos, leb_ℤ, ltb_ℤ}
use blu_gold.Crypto.Interface.{Primitives}
use blu_gold.Crypto.{Address, is_valid}
use blu_gold.Chain.Amount.{AmountError, parse_amount}
use blu_gold.Chain.Tx.{Hash}
use blu_gold.State.Monad.{Account}
use blu_gold.Node.Data.{Node}
use blu_gold.Node.Wallet.{
  Wallet, SendError, Info, BlockSummary, info, wallet_address, get_account, recent_blocks, send,
}
use blu_gold.P2p.{Peer}

-- The body of POST /api/send.
pub record SendRequest : Type 0 where
  pub to : Bytes
  pub amount : Bytes
  pub fee : Bytes

-- What `httpError` tells.
pub data ApiError : Type 0 where
  bad_json invalid_address invalid_destination : ApiError
  bad_amount : AmountError → ApiError
  not_sent : SendError → ApiError

-- `no_reply` is a handler that panics.
pub data Reply : Type 0 where
  info_reply : Info → Reply
  balance_reply : Address → Account → Reply
  sent_reply : Hash → ℕ → Address → Reply
  blocks_reply : List BlockSummary → Reply
  peers_reply : List Bytes → Reply
  http_error : ApiError → Reply
  no_reply : Reply

-- The end of the handler of POST /api/send.
unfoldable pub sent_or_not : Address → ℕ → Result SendError Hash × Node → Reply × Node
sent_or_not to amount (ok txid, n) = (sent_reply txid amount to, n)
sent_or_not to amount (err e, n) = (http_error (not_sent e), n)

-- The fee of a request; a blank one is 0.
unfoldable pub request_fee : (Bytes → Bytes) → Bytes → Result AmountError ℕ
request_fee trim_space fee =
    if bytes_eq (trim_space fee) [] then ok 0 else parse_amount trim_space fee

-- GET /api/blocks, for what `strconv.Atoi` gives.
unfoldable pub get_blocks : ℤ → Node → Reply
get_blocks count n =
    blocks_reply
      (recent_blocks (if leb_ℤ count (pos 0) || ltb_ℤ (pos 100) count then pos 10 else count) n)

-- GET /api/peers, with the remote addresses of the connections.
unfoldable pub get_peers : (ℕ → Bytes) → Option (List Peer) → Reply
get_peers remote_addr none = peers_reply []
get_peers remote_addr (some peers) =
    peers_reply
      (map (λ (p : Peer). remote_addr p.conn ++ ((32 ∷ 45 ∷ 62 ∷ 32 ∷ []) ++ p.advert)) peers)

module _ ⦃c : Primitives⦄ where
  -- GET /api/info
  unfoldable pub get_info : Option Wallet → Node → Reply
  get_info w n = elim (info w n) [ none ↦ no_reply | some i ↦ info_reply i ]

  -- GET /api/balance
  unfoldable pub get_balance : Option Wallet → Bytes → Node → Reply
  get_balance w addr n =
      let a = if bytes_eq addr [] then wallet_address w else addr in
      if not (is_valid a) then http_error invalid_address else balance_reply a (get_account a n)

  -- The handler of POST /api/send behind the decoding.
  unfoldable pub send_request :
      (Bytes → Bytes) → Option Wallet → SendRequest → ℤ → Node → Reply × Node
  send_request trim_space w req now n =
      let to = trim_space req.to in
      if not (is_valid to)
      then (http_error invalid_destination, n)
      else elim (parse_amount trim_space req.amount) [
        | err e ↦ (http_error (bad_amount e), n)
        | ok amount ↦ elim (request_fee trim_space req.fee) [
          | err e ↦ (http_error (bad_amount e), n)
          | ok fee ↦ sent_or_not to amount (send w to amount fee now n)
        ]
      ]

  -- POST /api/send; nothing comes of a body that is too long or no such JSON.
  unfoldable pub post_send :
      (Bytes → Bytes) → Option Wallet → Option SendRequest → ℤ → Node → Reply × Node
  post_send trim_space w none now n = (http_error bad_json, n)
  post_send trim_space w (some req) now n = send_request trim_space w req now n
