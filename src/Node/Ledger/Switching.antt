-- ===== src/Node/Ledger/Switching.antt =====
-- `switchChainLocked` and `selectTipLocked` follow the new chain, or stay on the old one.
use blu_gold.Base.{
  ℕ, ◌≡◌, refl, sym, ap, ◌∙◌, subst, inl, inr, false, ◌||◌, ltb, length, Bool-cases, Option, none,
  some, List, [], ◌∷◌, ◌++◌, arith, Result, ok, err, bytes_eq→eq, if◌then◌else◌,
}
use mathlib.Core.List.{reverse, reverse-cons, reverse-reverse, append-nil, append_assoc}
use blu_gold.Base.Dict.{Dict, lookup}
use blu_gold.Crypto.Interface.{Primitives}
use blu_gold.Chain.Params.{Params}
use blu_gold.Chain.Tx.{Tx, Hash}
use blu_gold.Chain.Block.{Block}
use blu_gold.State.Monad.{State}
use blu_gold.Node.Data.{Entry, Node, NodeError}
use blu_gold.Node.Switch.{
  on_path, path_heights, keep_on_path, commit_chain, publish, first_chain, reorganised,
}
use blu_gold.Node.Pool.{rebuild_mempool, drop_confirmed, revalidate_mempool, drop_confirmed_txs}
use blu_gold.Node.Ledger.{index_of, chain_state}
use blu_gold.Node.Ledger.Paths.{path_in}
use blu_gold.Node.Ledger.Replay.{Marks, Replayed}
use blu_gold.Node.Ledger.Follows.{Active, Follows, reject_subtree-Follows}

path_heights-index_of :
    (xs below : List Entry) → path_heights xs (index_of below) ≡ index_of (reverse xs ++ below)
unfolding path_heights index_of
path_heights-index_of [] below = refl
path_heights-index_of (e ∷ xs) below =
    let q : reverse (e ∷ xs) ++ below ≡ reverse xs ++ (e ∷ below) =
      simp (reverse-cons, append_assoc) in
    rw q (path_heights-index_of xs (e ∷ below))

path_heights-reverse :
    (l : List Entry) (h : ℕ) → path_heights (reverse l) (λ k. none) h ≡ index_of l h
unfolding index_of
path_heights-reverse l h =
    let again : reverse (reverse l) ++ [] ≡ l = simp (reverse-reverse, append-nil) in
    ap (λ (f : ℕ → Option Hash). f h) (path_heights-index_of (reverse l) [])
    ∙ ap (λ m. index_of m h) again

lookup-keep_on_path :
    (path : List Entry) (h : Hash) (d : Dict State)
    → lookup h (keep_on_path path d) ≡ (if on_path h path then lookup h d else none)
unfolding keep_on_path lookup
lookup-keep_on_path path h [] = ground arith
lookup-keep_on_path path h ((k, s) ∷ d) =
    ground (arith, lookup-keep_on_path path h d, bytes_eq→eq k h)

module _ ⦃c : Primitives⦄ where
  Marks-keep_on_path :
      (p : Params) (blocks : Dict Entry) (path : List Entry) (marks : Dict State)
      → Marks p blocks marks
      → Marks p blocks (keep_on_path path marks)
  Marks-keep_on_path p blocks path marks m h s k =
      m h s (ground (arith, k, lookup-keep_on_path path h marks))

  -- `commitChainLocked` of a path whose state is known.
  commit_chain-Follows :
      (e : Entry) (s : State) (txs : List Tx) (n : Node) (marks : Dict State)
      → Follows n
      → lookup e.hash n.blocks ≡ some e
      → Marks n.params n.blocks marks
      → chain_state n.params (path_in n.blocks e) ≡ some s
      → Follows
          (commit_chain e s (reverse (path_in n.blocks e)) txs (record n { checkpoints = marks }))
  unfolding commit_chain rebuild_mempool
  commit_chain-Follows e s txs n marks f at good made = record {
    tree = f.tree;
    marks_right = Marks-keep_on_path n.params n.blocks _ marks good;
    current = λ t is.
        let same : e ≡ t = cc in
        subst (Active n.params n.blocks s _) same (record {
          listed = at;
          made = made;
          indexed = λ h. path_heights-reverse (path_in n.blocks e) h;
        });
  }

  -- `dropConfirmedLocked` and `publishLocked` do not touch the chain.
  pub drop_confirmed-Follows : (e : Entry) (n : Node) → Follows n → Follows (drop_confirmed e n)
  unfolding drop_confirmed revalidate_mempool
  drop_confirmed-Follows e n f =
      elim (Bool-cases (
        (drop_confirmed_txs e.block.txs (n.mempool_tx, false)).1
        || ltb 0 (length (drop_confirmed_txs e.block.txs (n.mempool_tx, false)).0))) [
          | inl some_left ↦ rw some_left f
          | inr none_left ↦ rw none_left f
        ]

  pub publish-Follows : (b : Block) (n : Node) → Follows n → Follows (publish b n)
  unfolding publish
  publish-Follows b n f = elim (Bool-cases n.booting) [ inl on ↦ rw on f | inr off ↦ rw off f ]

  -- A replay that fails leaves the old chain in place.
  replay_failed :
      (below xs : List Entry) (n : Node) (x : NodeError) (m : Node)
      → Follows n
      → Replayed below xs n (err x, m)
      → Follows m
  replay_failed below xs n x m f (marks, good, inl is) =
      subst Follows (sym is) (record { tree = f.tree; marks_right = good; current = f.current })
  replay_failed below xs n x m f (marks, good, inr (e, at, bad, is)) = subst Follows (sym is) (
      reject_subtree-Follows e (record n { checkpoints = marks })
        (record { tree = f.tree; marks_right = good; current = f.current }) at bad)

  -- The end of a switch, for any result of the replay: `finish` of a state is `done_with`.
  replay_done :
      (e : Entry) (txs : List Tx) (below xs : List Entry) (n : Node) (s : State) (m : Node)
      → Follows n
      → lookup e.hash n.blocks ≡ some e
      → reverse xs ++ below ≡ path_in n.blocks e
      → Replayed below xs n (ok s, m)
      → Follows (commit_chain e s (reverse (path_in n.blocks e)) txs m)
  replay_done e txs below xs n s m f at whole (marks, is, good, made) =
      subst (λ k. Follows (commit_chain e s (reverse (path_in n.blocks e)) txs k)) (sym is)
        (commit_chain-Follows e s txs n marks f at good
          (ap (chain_state n.params) (sym whole) ∙ made))

  pub first_chain-Follows :
      (e : Entry) (below xs : List Entry) (n : Node) (q : Result NodeError State × Node)
      → Follows n
      → lookup e.hash n.blocks ≡ some e
      → reverse xs ++ below ≡ path_in n.blocks e
      → Replayed below xs n q
      → Follows (first_chain e (reverse (path_in n.blocks e)) q).1
  unfolding first_chain
  first_chain-Follows e below xs n (ok s, m) f at whole r =
      replay_done e [] below xs n s m f at whole r
  first_chain-Follows e below xs n (err x, m) f at whole r = replay_failed below xs n x m f r

  pub reorganised-Follows :
      (e : Entry) (txs : List Tx) (below xs : List Entry) (n : Node)
      (q : Result NodeError State × Node)
      → Follows n
      → lookup e.hash n.blocks ≡ some e
      → reverse xs ++ below ≡ path_in n.blocks e
      → Replayed below xs n q
      → Follows (reorganised e (reverse (path_in n.blocks e)) txs q).1
  unfolding reorganised
  reorganised-Follows e txs below xs n (ok s, m) f at whole r =
      publish-Follows e.block _ (replay_done e txs below xs n s m f at whole r)
  reorganised-Follows e txs below xs n (err x, m) f at whole r = replay_failed below xs n x m f r
