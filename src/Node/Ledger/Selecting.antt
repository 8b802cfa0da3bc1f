-- ===== src/Node/Ledger/Selecting.antt =====
-- The best entry is one of the tree, and the node moves to it.
use blu_gold.Base.{
  ◌≡◌, refl, ap, ◌∙◌, subst, inl, inr, Bool, true, false, Bool-cases, Option, none, some, [], ◌∷◌,
  arith, All, bytes_eq, if◌then◌else◌,
}
use blu_gold.Base.Dict.{Dict, lookup}
use blu_gold.Base.Dict.Unique.{listed-found}
use blu_gold.Crypto.Interface.{Primitives}
use blu_gold.Chain.Tx.{Hash}
use blu_gold.Node.Data.{Entry, Node, is_rejected}
use blu_gold.Node.Switch.{switch_chain, select_tip, best_from, beats}
use blu_gold.Node.Ledger.Follows.{Follows}
use blu_gold.Node.Ledger.Moving.{switch_chain-Follows}

best_from-listed :
    (P : Entry → Type 0) (blocks : Dict Entry) (best : Option Entry) (n : Node)
    → All (λ (p : Hash × Entry). P p.1) blocks
    → ((e : Entry) → best ≡ some e → P e)
    → (e : Entry) → best_from best blocks n ≡ some e
    → P e
unfolding best_from
best_from-listed P [] best n a b e q = b e q
best_from-listed P ((h, x) ∷ blocks) best n (here, a) b e q =
    best_from-listed P blocks _ n a (λ y is. step (is_rejected x.hash n) best b y is) e q
  where
    step :
        (r : Bool) (o : Option Entry)
        → ((e : Entry) → o ≡ some e → P e)
        → (y : Entry)
        → (if r
            then o
            else elim o [ none ↦ some x | some d ↦ if beats x d then some x else some d ])
          ≡ some y
        → P y
    step true o b y is = b y is
    step false none b y is = subst P (cc) here
    step false (some d) b y is = elim (Bool-cases (beats x d)) [
      | inl won ↦ subst P (ground (arith, is, won)) here
      | inr lost ↦ b y (ground (arith, is, lost))
    ]

module _ ⦃c : Primitives⦄ where
  best-listed :
      (n : Node)
      → Follows n
      → (e : Entry) → best_from none n.blocks n ≡ some e
      → lookup e.hash n.blocks ≡ some e
  best-listed n f =
      best_from-listed (λ e. lookup e.hash n.blocks ≡ some e) n.blocks none n
        (listed-found (λ k e. lookup e.hash n.blocks ≡ some e) n.blocks f.tree.unique
          (λ k e at. ap (λ g. lookup g n.blocks) (f.tree.keyed k e at) ∙ at))
        (λ e q. cc)

  -- `selectTipLocked`, whatever entry of the tree is best.
  pub select_tip-Follows : (n : Node) → Follows n → Follows (select_tip n)
  unfolding select_tip
  select_tip-Follows n f = to (best_from none n.blocks n) (best-listed n f)
    where
      moved : (e : Entry) → lookup e.hash n.blocks ≡ some e → Follows (switch_chain e n).1
      moved e at = switch_chain-Follows e n f at

      kept :
          (e : Entry) (o : Option Entry) (m : Node)
          → Follows m
          → Follows (elim o as (λ z. Node) [
            | none ↦ m
            | some tip ↦ if bytes_eq tip.hash e.hash then n else m
          ])
      kept e none m g = g
      kept e (some tip) m g = elim (Bool-cases (bytes_eq tip.hash e.hash)) [
        | inl same ↦ rw same f
        | inr other ↦ rw other g
      ]

      to :
          (o : Option Entry)
          → ((e : Entry) → o ≡ some e → lookup e.hash n.blocks ≡ some e)
          → Follows (elim o as (λ z. Node) [
            | none ↦ n
            | some best ↦
                let switched = (switch_chain best n).1 in
                elim n.tip as (λ z. Node) [
                  | none ↦ switched
                  | some tip ↦ if bytes_eq tip.hash best.hash then n else switched
                ]
          ])
      to none at = f
      to (some e) at = kept e n.tip _ (moved e (at e refl))
