-- ===== src/Node/Tips/Feed.antt =====
-- What a subscriber gets of the tips that are published.
use blu_gold.Base.{
  ℕ, ◌≤◌, ◌≡◌, refl, sym, ap, ◌⊎◌, ◌∙◌, subst, inl, inr, true, false, Bool-cases, none, some, List,
  [], ◌∷◌, ◌++◌, length, length-append, ltb, ◌==◌, ==_iff, if◌then◌else◌, arith, All,
}
use mathlib.Core.List.{Sublistᴰ, append_assoc, append-nil}
use mathlib.Core.List.Sublistᴰ.{slnil, cons, cons-cons}
use blu_gold.Chain.Block.{Block}
use blu_gold.Node.Data.{Node}
use blu_gold.Node.Tips.{
  Channels, tips_capacity, subscribe_tips, cancel_tips, offer, offer_all, publish_tips, waiting_in,
  receive_tip, TipMove, tip_published, tip_received, tips_cancelled, tips_subscribed,
}

Sublist_refl : (xs : List Block) → Sublistᴰ xs xs
Sublist_refl [] = slnil
Sublist_refl (x ∷ xs) = cons-cons refl (Sublist_refl xs)

Sublist-insert :
    (b : Block) (ws ps : List Block) {xs : List Block}
    → Sublistᴰ xs (ws ++ ps)
    → Sublistᴰ xs (ws ++ (b ∷ ps))
Sublist-insert b [] ps h = cons h
Sublist-insert b (w ∷ ws) ps (cons h) = cons (Sublist-insert b ws ps h)
Sublist-insert b (w ∷ ws) ps (cons-cons e h) = cons-cons e (Sublist-insert b ws ps h)

-- The channel `i` is neither cancelled nor made anew.
abbrev pub Stays : ℕ → TipMove → Type 0
Stays i (tip_published b) = Unit
Stays i (tip_received j) = Unit
Stays i (tips_cancelled j) = (j == i) ≡ false
Stays i (tips_subscribed j n) = (j == i) ≡ false

-- What is published.
unfoldable pub tips_published : List TipMove → List Block
tips_published [] = []
tips_published (tip_published b ∷ ms) = b ∷ tips_published ms
tips_published (tip_received j ∷ ms) = tips_published ms
tips_published (tips_cancelled j ∷ ms) = tips_published ms
tips_published (tips_subscribed j n ∷ ms) = tips_published ms

-- What the reader of the channel `i` has received in the end, and what then waits for it.
unfoldable pub tips_seen : ℕ → List TipMove → Channels → List Block
tips_seen i [] channels = elim (waiting_in i channels) [ none ↦ [] | some waiting ↦ waiting ]
tips_seen i (tip_received j ∷ ms) channels =
    let rest = tips_seen i ms (receive_tip j channels).1 in
    if j == i then elim (receive_tip i channels).0 [ none ↦ rest | some b ↦ b ∷ rest ] else rest
tips_seen i (tip_published b ∷ ms) channels = tips_seen i ms (publish_tips false b channels)
tips_seen i (tips_cancelled j ∷ ms) channels = tips_seen i ms (cancel_tips j channels)
tips_seen i (tips_subscribed j n ∷ ms) channels = tips_seen i ms (subscribe_tips j n channels).1

waiting_in-offer :
    (i : ℕ) (b : Block) (channels : Channels) (w : List Block)
    → waiting_in i channels ≡ some w
    → waiting_in i (offer_all b channels) ≡ some (offer b w)
unfolding waiting_in offer_all
waiting_in-offer i b [] w h = absurd (cc (h))
waiting_in-offer i b ((j, v) ∷ channels) w h = ground (arith, waiting_in-offer i b channels w)

waiting_in-cancel :
    (i j : ℕ) (channels : Channels)
    → (j == i) ≡ false
    → waiting_in i (cancel_tips j channels) ≡ waiting_in i channels
unfolding waiting_in cancel_tips
waiting_in-cancel i j [] h = refl
waiting_in-cancel i j ((k, v) ∷ channels) h = ground (arith, waiting_in-cancel i j channels h)

waiting_in-receive_other :
    (i j : ℕ) (channels : Channels)
    → (j == i) ≡ false
    → waiting_in i (receive_tip j channels).1 ≡ waiting_in i channels
unfolding waiting_in receive_tip
waiting_in-receive_other i j [] h = refl
waiting_in-receive_other i j ((k, []) ∷ channels) h =
    ground (arith, waiting_in-receive_other i j channels h)
waiting_in-receive_other i j ((k, b ∷ v) ∷ channels) h =
    ground (arith, waiting_in-receive_other i j channels h)

-- The reader of a channel takes the oldest block that waits.
receive_nothing :
    (i : ℕ) (channels : Channels)
    → waiting_in i channels ≡ some []
    → ((receive_tip i channels).0 ≡ none) × (waiting_in i (receive_tip i channels).1 ≡ some [])
unfolding waiting_in receive_tip
receive_nothing i [] h = absurd (cc (h))
receive_nothing i ((j, []) ∷ channels) h =
    (ground (arith, receive_nothing i channels), ground (arith, receive_nothing i channels))
receive_nothing i ((j, b ∷ v) ∷ channels) h =
    (ground (arith, receive_nothing i channels), ground (arith, receive_nothing i channels))

receive_oldest :
    (i : ℕ) (channels : Channels) (b : Block) (w : List Block)
    → waiting_in i channels ≡ some (b ∷ w)
    → ((receive_tip i channels).0 ≡ some b) × (waiting_in i (receive_tip i channels).1 ≡ some w)
unfolding waiting_in receive_tip
receive_oldest i [] b w h = absurd (cc (h))
receive_oldest i ((j, []) ∷ channels) b w h =
    (ground (arith, receive_oldest i channels b w), ground (arith, receive_oldest i channels b w))
receive_oldest i ((j, x ∷ v) ∷ channels) b w h =
    (ground (arith, receive_oldest i channels b w), ground (arith, receive_oldest i channels b w))

offer-cases : (b : Block) (w : List Block) → (offer b w ≡ w ++ (b ∷ [])) ⊎ (offer b w ≡ w)
unfolding offer
offer-cases b w = elim (Bool-cases (ltb (length w) tips_capacity)) [
  | inl room ↦ inl (rw room refl)
  | inr full ↦ inr (rw full refl)
]

Sublist-offer :
    (b : Block) (w ps xs : List Block) → Sublistᴰ xs (offer b w ++ ps) → Sublistᴰ xs (w ++ (b ∷ ps))
Sublist-offer b w ps xs h = elim (offer-cases b w) [
  | inl e ↦
      subst (Sublistᴰ xs) (append_assoc w (b ∷ []) ps) (subst (λ v. Sublistᴰ xs (v ++ ps)) e h)
  | inr e ↦ Sublist-insert b w ps (subst (λ v. Sublistᴰ xs (v ++ ps)) e h)
]

-- A relation between what a reader sees and what there was to see, which the channel keeps.
module _ (P : List Block → List Block → Type 0) (P-all : (xs : List Block) → P xs xs)
    (P-first : (b : Block) (xs ys : List Block) → P xs ys → P (b ∷ xs) (b ∷ ys))
    (P-offer : (b : Block) (w ps xs : List Block) → P xs (offer b w ++ ps) → P xs (w ++ (b ∷ ps)))
    (i : ℕ) where
  module _ (ms : List TipMove)
      (rest : (channels : Channels) (w : List Block)
        → waiting_in i channels ≡ some w
        → P (tips_seen i ms channels) (w ++ tips_published ms)) where
    seen_own :
        (channels : Channels) (w : List Block)
        → waiting_in i channels ≡ some w
        → P (tips_seen i (tip_received i ∷ ms) channels) (w ++ tips_published ms)
    unfolding tips_seen
    seen_own channels [] h =
        let (got, left) = receive_nothing i channels h in
        rw ((==_iff i i).1 refl, got) (rest (receive_tip i channels).1 [] left)
    seen_own channels (b ∷ w) h =
        let (got, left) = receive_oldest i channels b w h in
        rw ((==_iff i i).1 refl, got) (P-first b _ _ (rest (receive_tip i channels).1 w left))

    seen_received :
        (j : ℕ) (channels : Channels) (w : List Block)
        → waiting_in i channels ≡ some w
        → P (tips_seen i (tip_received j ∷ ms) channels) (w ++ tips_published ms)
    unfolding tips_seen
    seen_received j channels w h = elim (Bool-cases (j == i)) [
      | inl same ↦
          subst (λ k. P (tips_seen i (tip_received k ∷ ms) channels) (w ++ tips_published ms))
            (sym ((==_iff j i).0 same)) (seen_own channels w h)
      | inr other ↦
          rw other
            (rest (receive_tip j channels).1 w (waiting_in-receive_other i j channels other ∙ h))
    ]

  seen_always :
      (ms : List TipMove) (channels : Channels) (w : List Block)
      → All (Stays i) ms
      → waiting_in i channels ≡ some w
      → P (tips_seen i ms channels) (w ++ tips_published ms)
  unfolding tips_seen tips_published publish_tips subscribe_tips waiting_in
  seen_always [] channels w stays h = rw (tips_seen, h) (subst (P w) (sym (append-nil w)) (P-all w))
  seen_always (tip_published b ∷ ms) channels w (_, stays) h =
      P-offer b w _ _ (
        seen_always ms (offer_all b channels) (offer b w) stays (waiting_in-offer i b channels w h))
  seen_always (tip_received j ∷ ms) channels w (_, stays) h =
      seen_received ms (λ cs v q. seen_always ms cs v stays q) j channels w h
  seen_always (tips_cancelled j ∷ ms) channels w (other, stays) h =
      seen_always ms (cancel_tips j channels) w stays (waiting_in-cancel i j channels other ∙ h)
  seen_always (tips_subscribed j n ∷ ms) channels w (other, stays) h =
      seen_always ms (subscribe_tips j n channels).1 w stays (rw other h)

-- Nothing is left out of four blocks or fewer.
abbrev FewKept : List Block → List Block → Type 0
FewKept xs ys = length ys ≤ tips_capacity → xs ≡ ys

FewKept-offer :
    (b : Block) (w ps xs : List Block) → FewKept xs (offer b w ++ ps) → FewKept xs (w ++ (b ∷ ps))
unfolding offer
FewKept-offer b w ps xs h few =
    let room : ltb (length w) tips_capacity ≡ true =
      ground (arith, few, length-append w (b ∷ ps)) in
    let same : offer b w ++ ps ≡ w ++ (b ∷ ps) = rw room (append_assoc w (b ∷ []) ps) in
    subst (FewKept xs) same h few

-- A subscription that is not cancelled, under a number that no later one takes: whatever the
-- channels go through, what its reader has received, with what waits for it in the end, are blocks
-- that were published since, in their order; and where four were published or fewer, all of them.
pub tips_seen-Sublist :
    (i : ℕ) (n : Node) (channels : Channels) (ms : List TipMove)
    → All (Stays i) ms
    → Sublistᴰ (tips_seen i ms (subscribe_tips i n channels).1) (tips_published ms)
      × (length (tips_published ms) ≤ tips_capacity
          → tips_seen i ms (subscribe_tips i n channels).1 ≡ tips_published ms)
unfolding subscribe_tips waiting_in
tips_seen-Sublist i n channels ms stays =
    let new : waiting_in i ((i, []) ∷ channels) ≡ some [] = rw ((==_iff i i).1 refl) refl in
    (
      seen_always Sublistᴰ Sublist_refl (λ b xs ys h. cons-cons refl h) Sublist-offer i ms _ []
          stays new,
      seen_always FewKept (λ xs k. refl) (λ b xs ys h k. ap (λ l. b ∷ l) (h (omega arith)))
          FewKept-offer i ms _ [] stays new,
    )
