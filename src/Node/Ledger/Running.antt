-- ===== src/Node/Ledger/Running.antt =====
-- Every call keeps a node on the state of its chain.
use blu_gold.Base.{
  ℕ, ◌≡◌, refl, sym, inl, inr, subst, arith, Bool, true, false, not, ◌||◌, Bool-cases, Option, none,
  some, List, [], ◌∷◌, Bytes, length, leb, Result, ok, err, if◌then◌else◌,
}
use blu_gold.Base.Int.{ℤ}
use blu_gold.Base.Dict.{contains}
use blu_gold.Crypto.Interface.{Primitives}
use blu_gold.Crypto.{Address, is_valid}
use blu_gold.Chain.Params.{Params}
use blu_gold.Chain.Tx.{Tx, Hash, tx_hash}
use blu_gold.Chain.Block.{Block, block_hash}
use blu_gold.State.Monad.{State, Outcome, done, failed, panic}
use blu_gold.State.{account, apply_tx, validate_tx}
use blu_gold.Node.Data.{Node, NodeError, max_mempool, is_rejected}
use blu_gold.Node.Transactions.{
  recompute_pending, pending_state, add_applied, add_validated, add_tx,
}
use blu_gold.Node.Insert.{insert_block}
use blu_gold.Node.Wallet.{
  Wallet, invalid_destination, address_of, signed_tx, sent_hash, send, submit_solution,
}
use blu_gold.Node.Sync.{
  Message, get_blocks, blocks_msg, new_block, new_tx, get_mempool, mempool_msg, remote_result,
  accept_remote_block, accept_all, on_blocks, on_new_block, on_new_tx, on_mempool, on_message,
}
use blu_gold.Node.Run.{Step, message, added, paid, mined, asked, Reached, booted, step}
use blu_gold.Node.Ledger.Follows.{Follows}
use blu_gold.Node.Ledger.Inserting.{NoZeroHash, insert_block-Follows}
use blu_gold.Node.Ledger.Booting.{FromGenesis, boot-Follows}

module _ ⦃c : Primitives⦄ where
  pending_state-Follows : (n : Node) → Follows n → Follows (pending_state n).1
  unfolding pending_state recompute_pending
  pending_state-Follows n f = cached n.pending n.pending_dirty
    where
      cached :
          (o : Option State) (stale : Bool)
          → Follows
              (elim o as (λ z. State × Node) [
                | none ↦ recompute_pending n
                | some s ↦ if stale then recompute_pending n else (s, n)
              ]).1
      cached none stale = f
      cached (some s) true = f
      cached (some s) false = f

  add_applied-Follows :
      (t : Tx) (except_peer : Bytes) (q : Outcome (Unit {0}) × State) (n : Node)
      → Follows n
      → Follows (add_applied t except_peer q n).1
  unfolding add_applied
  add_applied-Follows t except_peer (panic, s) n f = f
  add_applied-Follows t except_peer (failed e, s) n f = f
  add_applied-Follows t except_peer (done _, s) n f =
      elim (Bool-cases (leb max_mempool (length n.mempool_tx))) [
        | inl full ↦ rw full f
        | inr room ↦
            rw room (elim (Bool-cases n.networked) [ inl on ↦ rw on f | inr off ↦ rw off f ])
      ]

  add_validated-Follows :
      (t : Tx) (except_peer : Bytes) (q : Outcome (Unit {0}) × State) (n : Node)
      → Follows n
      → Follows (add_validated t except_peer q n).1
  unfolding add_validated
  add_validated-Follows t except_peer (panic, s) n f = f
  add_validated-Follows t except_peer (failed e, s) n f = f
  add_validated-Follows t except_peer (done _, s) n f =
      add_applied-Follows t except_peer (apply_tx t s) n f

  add_tx-Follows :
      (t : Tx) (except_peer : Bytes) (n : Node) → Follows n → Follows (add_tx t except_peer n).1
  unfolding add_tx
  add_tx-Follows t except_peer n f = seen (contains (tx_hash t) n.seen_tx)
    where
      seen :
          (b : Bool)
          → Follows
              (if b
                then (ok tt, n)
                else add_validated t except_peer
                    (validate_tx t (pending_state n).0)
                    (pending_state n).1).1
      seen true = f
      seen false =
          add_validated-Follows t except_peer _ (pending_state n).1 (pending_state-Follows n f)

  send-Follows :
      (w : Option Wallet) (to : Address) (amount fee : ℕ) (now : ℤ) (n : Node)
      → Follows n
      → Follows (send w to amount fee now n).1
  unfolding send
  send-Follows none to amount fee now n f = f
  send-Follows (some w) to amount fee now n f = valid (not (is_valid to))
    where
      sent :
          (t : Tx) (q : Result NodeError (Unit {0}) × Node)
          → Follows q.1
          → Follows (sent_hash t q).1
      sent t (ok u, m) g = unfold sent_hash in g
      sent t (err e, m) g = unfold sent_hash in g

      t : Tx
      t = signed_tx w to amount fee (account (address_of w) (pending_state n).0).nonce now

      valid :
          (b : Bool)
          → Follows
              (if b
                then (err invalid_destination, n)
                else sent_hash t (add_tx t [] (pending_state n).1)).1
      valid true = f
      valid false = sent t _ (add_tx-Follows t [] (pending_state n).1 (pending_state-Follows n f))

  on_new_tx-Follows :
      (peer : Bytes) (t : Option Tx) (n : Node) → Follows n → Follows (on_new_tx peer t n)
  unfolding on_new_tx
  on_new_tx-Follows peer none n f = f
  on_new_tx-Follows peer (some t) n f = add_tx-Follows t peer n f

  on_mempool-Follows :
      (peer : Bytes) (ts : List (Option Tx)) (n : Node) → Follows n → Follows (on_mempool peer ts n)
  unfolding on_mempool
  on_mempool-Follows peer [] n f = f
  on_mempool-Follows peer (t ∷ ts) n f =
      on_mempool-Follows peer ts (on_new_tx peer t n) (on_new_tx-Follows peer t n f)

  remote_node : (q : Result NodeError (Unit {0}) × Node) → (remote_result q).2 ≡ q.1
  unfolding remote_result
  remote_node (ok u, n) = refl
  remote_node (err e, n) = ground arith

  module _ (real : NoZeroHash) where
    accept_remote_block-Follows :
        (now : ℤ) (peer : Bytes) (announce : Bool) (b : Block) (n : Node)
        → Follows n
        → Follows (accept_remote_block now peer announce b n).2
    unfolding accept_remote_block
    accept_remote_block-Follows now peer announce b n f =
        known (contains (block_hash b) n.blocks || is_rejected (block_hash b) n)
      where
        known :
            (k : Bool)
            → Follows
                (if k
                  then (false, [], n)
                  else remote_result (insert_block now false announce peer b n)).2
        known true = f
        known false =
            subst Follows (sym (remote_node (insert_block now false announce peer b n)))
              (insert_block-Follows real now false announce peer b n f)

    accept_all-Follows :
        (now : ℤ) (peer : Bytes) (bs : List (Option Block)) (deepest : Option Hash) (n : Node)
        → Follows n
        → Follows (accept_all now peer bs deepest n).2
    unfolding accept_all
    accept_all-Follows now peer [] deepest n f = f
    accept_all-Follows now peer (none ∷ bs) deepest n f = f
    accept_all-Follows now peer (some b ∷ bs) deepest n f =
        accept_all-Follows now peer bs _ (accept_remote_block now peer false b n).2
          (accept_remote_block-Follows now peer false b n f)

    on_message-Follows :
        (now : ℤ) (peer : Bytes) (m : Message) (n : Node)
        → Follows n
        → Follows (on_message now peer m n).1
    unfolding on_message on_blocks on_new_block
    on_message-Follows now peer (get_blocks locator count) n f = f
    on_message-Follows now peer (blocks_msg bs) n f = accept_all-Follows now peer bs none n f
    on_message-Follows now peer (new_block none) n f = f
    on_message-Follows now peer (new_block (some b)) n f =
        accept_remote_block-Follows now peer true b n f
    on_message-Follows now peer (new_tx t) n f = on_new_tx-Follows peer t n f
    on_message-Follows now peer get_mempool n f = f
    on_message-Follows now peer (mempool_msg ts) n f = on_mempool-Follows peer ts n f

    Step-Follows : (n : Node) {m : Node} → Step n m → Follows n → Follows m
    unfolding submit_solution
    Step-Follows n (message now peer x) f = on_message-Follows now peer x n f
    Step-Follows n (added t except_peer) f = add_tx-Follows t except_peer n f
    Step-Follows n (paid w to amount fee now) f = send-Follows w to amount fee now n f
    Step-Follows n (mined now b) f = insert_block-Follows real now false true [] b n f
    Step-Follows n asked f = pending_state-Follows n f

    -- A node that `New` has returned, for a store that is empty or begins with a block that stands
    -- on none, follows its chain after any messages, transactions, payments and mined blocks, in
    -- any order, where no block has the hash of 32 zero bytes: its tree is one, and where there
    -- is a tip, its state is what the blocks of the tip's chain make of no accounts, its index is
    -- that chain's, and each checkpoint is the state of its own chain.
    pub Reached-Follows :
        (p : Params) (blocks : List Block) {n : Node}
        → FromGenesis blocks
        → Reached p blocks n
        → Follows n
    Reached-Follows p blocks from (booted peer_sync now written n q) =
        boot-Follows real p peer_sync now written blocks n from q
    Reached-Follows p blocks from (step n m r s) =
        Step-Follows n s (Reached-Follows p blocks from r)
