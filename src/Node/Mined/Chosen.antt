-- ===== src/Node/Mined/Chosen.antt =====
-- The heaviest entry is chosen, and an entry on the tip extends the active chain.
use blu_gold.Base.{
  ◌≡◌, refl, ap, inl, inr, ◌⊎◌, true, false, Bool-cases, Option, none, some, [], ◌∷◌, Bytes,
  bytes_eq, bytes_eq_refl, arith, All, ◌<◌, if◌then◌else◌, ◌∙◌, ◌||◌, ltb, length,
}
use blu_gold.Base.Dict.{Dict, insert}
use blu_gold.Crypto.Interface.{Primitives}
use blu_gold.State.Monad.{Outcome, State, done, failed, panic}
use blu_gold.State.{apply_block}
use blu_gold.Chain.Block.{Block}
use blu_gold.Node.Data.{Entry, Node, is_rejected}
use blu_gold.Node.Pool.{drop_confirmed_txs, drop_confirmed, revalidate_mempool}
use blu_gold.Node.Switch.{beats, best_from, publish, extend_chain, switch_chain, select_tip}

-- Rejected, or of less work than `e`.
abbrev pub Lighter : Node → Entry → Bytes × Entry → Type 0
Lighter n e p = (is_rejected p.1.hash n ≡ true) ⊎ (p.1.work < e.work)

lighter-beats : (x e : Entry) → x.work < e.work → (beats x e ≡ false) × (beats e x ≡ true)
unfolding beats
lighter-beats x e h = (ground arith, ground arith)

-- The scan keeps an entry that all others are lighter than.
scan_on :
    (n : Node) (e : Entry) (d : Dict Entry) → All (Lighter n e) d → best_from (some e) d n ≡ some e
unfolding best_from
scan_on n e [] h = refl
scan_on n e ((j, x) ∷ d) (inl r, h) = rw r (scan_on n e d h)
scan_on n e ((j, x) ∷ d) (inr l, h) = elim (Bool-cases (is_rejected x.hash n)) [
  | inl r ↦ rw r (scan_on n e d h)
  | inr fresh ↦ rw (fresh, (lighter-beats x e l).0) (scan_on n e d h)
]

-- The best entry so far, if any, is lighter.
abbrev Behind : Entry → Option Entry → Type 0
Behind e none = Unit
Behind e (some b) = b.work < e.work

module _ (n : Node) (e : Entry) (fresh : is_rejected e.hash n ≡ false) where
  meets_e :
      (o : Option Entry) (k : Bytes) (d : Dict Entry)
      → Behind e o
      → All (Lighter n e) d
      → best_from o ((k, e) ∷ d) n ≡ some e
  unfolding best_from
  meets_e none k d b h = rw fresh (scan_on n e d h)
  meets_e (some x) k d b h = rw (fresh, (lighter-beats x e b).1) (scan_on n e d h)

  not_rejected :
      (x : Entry) (j : Bytes) → is_rejected x.hash n ≡ false → Lighter n e (j, x) → x.work < e.work
  not_rejected x j f (inl r) = cc
  not_rejected x j f (inr l) = l

  -- Behind another lighter entry.
  next_best :
      (o : Option Entry) (x : Entry)
      → Behind e o
      → x.work < e.work
      → Behind e (elim o [ none ↦ some x | some b ↦ if beats x b then some x else some b ])
  next_best none x b l = l
  next_best (some y) x b l = elim (Bool-cases (beats x y)) [ inl t ↦ rw t l | inr f ↦ rw f b ]

  pub best_from-insert :
      (o : Option Entry) (k : Bytes) (d : Dict Entry)
      → Behind e o
      → All (Lighter n e) d
      → best_from o (insert k e d) n ≡ some e
  unfolding insert best_from
  best_from-insert o k [] b h = meets_e o k [] b tt
  best_from-insert o k ((j, x) ∷ d) b (l, h) = elim (Bool-cases (bytes_eq j k)) [
    | inl same ↦ rw same (meets_e o j d b h)
    | inr other ↦ rw other (elim (Bool-cases (is_rejected x.hash n)) [
      | inl r ↦ rw (r, best_from) (best_from-insert o k d b h)
      | inr f ↦
          rw (f, best_from)
            (best_from-insert
              (elim o [ none ↦ some x | some y ↦ if beats x y then some x else some y ]) k d
              (next_best o x b (not_rejected x j f l)) h)
    ])
  ]

module _ ⦃c : Primitives⦄ where
  drop_confirmed-tip : (e : Entry) (n : Node) → (drop_confirmed e n).tip ≡ n.tip
  unfolding drop_confirmed revalidate_mempool
  drop_confirmed-tip e n =
      elim (Bool-cases (
        (drop_confirmed_txs e.block.txs (n.mempool_tx, false)).1
        || ltb 0 (length (drop_confirmed_txs e.block.txs (n.mempool_tx, false)).0))) [
          | inl some_left ↦ rw some_left refl
          | inr none_left ↦ rw none_left refl
        ]

  publish-tip : (b : Block) (n : Node) → (publish b n).tip ≡ n.tip
  unfolding publish
  publish-tip b n = elim (Bool-cases n.booting) [ inl on ↦ rw on refl | inr off ↦ rw off refl ]

  extend_chain-tip :
      (e : Entry) (x : Outcome (Unit {0}) × State) (n : Node)
      → x.0 ≡ done tt
      → (extend_chain e x n).1.tip ≡ some e
  unfolding extend_chain
  extend_chain-tip e (done _, s) n h = publish-tip e.block _ ∙ drop_confirmed-tip e _
  extend_chain-tip e (failed x, s) n h = cc
  extend_chain-tip e (panic, s) n h = cc

  module _ (n : Node) (tip e : Entry) (has : n.tip ≡ some tip) (on : e.block.prev_hash ≡ tip.hash)
      (applies : (apply_block e.block n.params n.state).0 ≡ done tt) where
    switch_chain-tip : (switch_chain e n).1.tip ≡ some e
    unfolding switch_chain
    switch_chain-tip =
        let same : bytes_eq e.block.prev_hash tip.hash ≡ true =
          ap (λ h. bytes_eq h tip.hash) on ∙ bytes_eq_refl tip.hash in
        rw has (
          rw (same, switch_chain)
            (extend_chain-tip e (apply_block e.block n.params n.state) (record n { tip = some tip })
              applies))

    -- An entry on the tip, which is chosen, and whose block applies to the node's state, is the new
    -- tip.
    pub select_tip-extends :
        best_from none n.blocks n ≡ some e
        → bytes_eq tip.hash e.hash ≡ false
        → (select_tip n).tip ≡ some e
    unfolding select_tip
    select_tip-extends best other = rw (best, has, other, select_tip) switch_chain-tip
