-- ===== src/Node/Tips.antt =====
-- `SubscribeTips` and `publishLocked` of internal/node/node.go: the channels that new tips go to.
pub mod Feed
use blu_gold.Base.{
  ℕ, Bool, false, Option, none, some, List, [], ◌∷◌, ◌++◌, length, ltb, ◌==◌, if◌then◌else◌,
}
use blu_gold.Chain.Block.{Block}
use blu_gold.Node.Data.{Entry, Node}

-- `n.tipSubs`: each channel, as a number, with the blocks that wait in it, oldest first.
abbrev pub Channels : Type 0
Channels = List (ℕ × List Block)

-- `make(chan *chain.Block, 4)`
abbrev pub tips_capacity : ℕ
tips_capacity = 4

-- `n.tip`'s block, and the nodes' channels with a new one.
unfoldable pub subscribe_tips : ℕ → Node → Channels → Option Block × Channels
subscribe_tips i n channels =
    (elim n.tip [ none ↦ none | some tip ↦ some tip.block ], (i, []) ∷ channels)

-- `cancel`
unfoldable pub cancel_tips : ℕ → Channels → Channels
cancel_tips i [] = []
cancel_tips i ((j, waiting) ∷ channels) =
    let rest = cancel_tips i channels in if j == i then rest else (j, waiting) ∷ rest

-- `select { case ch <- tip: default: }`
unfoldable pub offer : Block → List Block → List Block
offer b waiting = if ltb (length waiting) tips_capacity then waiting ++ (b ∷ []) else waiting

unfoldable pub offer_all : Block → Channels → Channels
offer_all b [] = []
offer_all b ((j, waiting) ∷ channels) = (j, offer b waiting) ∷ offer_all b channels

-- `publishLocked`, on the channels.
unfoldable pub publish_tips : Bool → Block → Channels → Channels
publish_tips booting b channels = if booting then channels else offer_all b channels

-- What waits in a channel; nothing where it was cancelled.
unfoldable pub waiting_in : ℕ → Channels → Option (List Block)
waiting_in i [] = none
waiting_in i ((j, waiting) ∷ channels) = if j == i then some waiting else waiting_in i channels

-- `<-ch`, in a channel of the node: the oldest block that waits, if any.
unfoldable pub receive_tip : ℕ → Channels → Option Block × Channels
receive_tip i [] = (none, [])
receive_tip i ((j, waiting) ∷ channels) =
    let (got, rest) = receive_tip i channels in
    if j == i
    then elim waiting [ [] ↦ (none, (j, []) ∷ channels) | b ∷ bs ↦ (some b, (j, bs) ∷ channels) ]
    else (got, (j, waiting) ∷ rest)

-- What happens to the channels.
pub data TipMove : Type 0 where
  tip_published : Block → TipMove
  tip_received tips_cancelled : ℕ → TipMove
  tips_subscribed : ℕ → Node → TipMove

unfoldable pub move_tips : Channels → TipMove → Channels
move_tips channels (tip_published b) = publish_tips false b channels
move_tips channels (tip_received i) = (receive_tip i channels).1
move_tips channels (tips_cancelled i) = cancel_tips i channels
move_tips channels (tips_subscribed i n) = (subscribe_tips i n channels).1
