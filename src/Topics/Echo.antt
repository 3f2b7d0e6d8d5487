-- ===== src/Topics/Echo.antt =====
-- Node::network_tick as a whole: what came from the network is not sent back.
use mathlib.Core.Path.{subst}
use mathlib.Core.Option.{some-injective}
use r2dtu_attention.Common.{
  ℕ, zero, suc, ◌≡◌, refl, ◌∙◌, sym, ap, true, inl, inr, some, List, [], ◌∷◌, get_elem?, All,
  All-map, Option-cases,
}
use r2dtu_attention.Message.{Packet}
use r2dtu_attention.Topics.{Subscriber, Publisher, Node, network_tick}
use r2dtu_attention.Topics.Unread.{Inbox, change, holding, Represents}
use r2dtu_attention.Topics.Delivery.{change-nothing, get_elem?-change, emptied}
use r2dtu_attention.Topics.Network.{outgoing, outgoing_all, come, transmit_all-Represents}
use r2dtu_attention.Topics.Receive.{
  come-owner, after_messages, after_messages-keeps, emptied-keeps, IsWired, IsWired-change,
  receive_all-Represents,
}

-- The boxes that send to the network are networked.
abbrev pub Sending : List Inbox → List ℕ → Type 0
Sending bs ids = All (λ a. (b : Inbox) × (get_elem? bs a ≡ some b) × (b.networked ≡ true)) ids

-- They are, and nothing is unread in them.
abbrev Quiet : List Inbox → List ℕ → Type 0
Quiet bs ids =
    All (λ a. (b : Inbox) × (get_elem? bs a ≡ some b) × (b.networked ≡ true) × (b.unread ≡ [])) ids

-- A box that the change leaves alone, or leaves networked, stays so.
fixed-change :
    (f : Inbox → Inbox) (bs : List Inbox) (i a : ℕ) (b : Inbox)
    → f b ≡ b
    → get_elem? bs a ≡ some b
    → get_elem? (change f bs i) a ≡ some b
unfolding change
fixed-change f [] i a b h e = e
fixed-change f (c ∷ bs) zero zero b h e = ap some (ap f (some-injective _ _ e) ∙ h)
fixed-change f (c ∷ bs) zero (suc a) b h e = e
fixed-change f (c ∷ bs) (suc i) zero b h e = e
fixed-change f (c ∷ bs) (suc i) (suc a) b h e = fixed-change f bs i a b h e

Sending-at :
    (bs : List Inbox) (i a : ℕ) (b : Inbox)
    → b.networked ≡ true
    → get_elem? bs a ≡ some b
    → (c : Inbox) × (get_elem? (change (holding []) bs i) a ≡ some c) × (c.networked ≡ true)
unfolding change
Sending-at [] i a b h e = (b, e, h)
Sending-at (c ∷ bs) zero zero b h e =
    (holding [] c, refl, ap (λ d. d.networked) (some-injective _ _ e) ∙ h)
Sending-at (c ∷ bs) zero (suc a) b h e = (b, e, h)
Sending-at (c ∷ bs) (suc i) zero b h e = (b, e, h)
Sending-at (c ∷ bs) (suc i) (suc a) b h e = Sending-at bs i a b h e

come-fixed : (msg : Packet) (b : Inbox) → b.networked ≡ true → come msg b ≡ b
come-fixed msg b e = rw e refl

emptied-at :
    (ids : List ℕ) (bs : List Inbox) (a : ℕ) (b : Inbox)
    → b.unread ≡ []
    → get_elem? bs a ≡ some b
    → get_elem? (emptied bs ids) a ≡ some b
emptied-at ids bs a b u e =
    emptied-keeps (λ cs. get_elem? cs a ≡ some b)
      (λ cs i. fixed-change (holding []) cs i a b (ap (λ xs. holding xs b) (sym u))) ids bs e

-- After the boxes are emptied they are quiet.
emptied-Quiet : (ids : List ℕ) (bs : List Inbox) → Sending bs ids → Quiet (emptied bs ids) ids
unfolding emptied
emptied-Quiet [] bs h = tt
emptied-Quiet (a ∷ ids) bs h =
    let (b, e, y) = h.0 in
    (
      (
        holding [] b,
        emptied-at ids (change (holding []) bs a) a (holding [] b) refl
            (get_elem?-change (holding []) bs a b e),
        y,
        refl,
      ),
      emptied-Quiet ids (change (holding []) bs a)
          (All-map ids (λ i (c, f, z). Sending-at bs a i c z f) h.1),
    )

after_messages-Quiet :
    (n : Node) (msgs : List Packet) (ids : List ℕ) (bs : List Inbox)
    → Quiet bs ids
    → Quiet (after_messages n.publishers n.by_channel bs msgs) ids
after_messages-Quiet n msgs ids bs h =
    after_messages-keeps (λ cs. Quiet cs ids)
      (λ msg cs i q.
        All-map ids
          (λ a (b, e, y, u). (b, fixed-change (come msg) cs i a b (come-fixed msg b y) e, y, u)) q)
      n.publishers n.by_channel msgs bs h

outgoing-nil :
    (publishers : List Publisher) (b : Inbox) → b.unread ≡ [] → outgoing publishers (some b) ≡ []
unfolding outgoing
outgoing-nil publishers b u = elim (Option-cases (get_elem? publishers b.owner)) [
  | inl missing ↦ rw (outgoing, missing) refl
  | inr (p, found) ↦ rw (outgoing, found, u) refl
]

-- Quiet boxes send nothing.
outgoing_all-Quiet :
    (publishers : List Publisher) (ids : List ℕ) (bs : List Inbox)
    → Quiet bs ids
    → outgoing_all publishers bs ids ≡ []
unfolding outgoing_all outgoing
outgoing_all-Quiet publishers [] bs h = refl
outgoing_all-Quiet publishers (a ∷ ids) bs h =
    let (b, e, y, u) = h.0 in
    rw
      (
        e,
        change-nothing (holding []) bs a b e (ap (λ xs. holding xs b) (sym u)),
        outgoing_all-Quiet publishers ids bs h.1,
        outgoing-nil publishers b u,
      )
      refl

IsWired-set :
    (n : Node) (ss : List Subscriber) (bs : List Inbox)
    → IsWired n bs
    → IsWired (record n { subscribers = ss }) bs
IsWired-set n ss bs w = record {
  linked = w.linked;
  owned = w.owned;
  sending = w.sending;
  known = w.known;
}

emptied-IsWired :
    (n : Node) (ids : List ℕ) (bs : List Inbox) → IsWired n bs → IsWired n (emptied bs ids)
emptied-IsWired n ids bs w =
    emptied-keeps (IsWired n) (λ cs a. IsWired-change n (holding []) cs a (λ b. refl)) ids bs w

-- A tick of the network in a node whose pointers lead somewhere. It sends the messages that the networked subscribers
-- have not read, subscriber by subscriber, in the order of their arrival, each on the channel of its
-- publisher; a message that is received comes to the subscribers of its channel's publisher that are not
-- networked, and to no one if no publisher has the channel.
pub network_tick-Represents :
    (n : Node) (bs : List Inbox) (received : List Packet)
    → Represents n.subscribers bs
    → IsWired n bs
    → (ss : List Subscriber) × (network_tick true received n
        ≡ some (outgoing_all n.publishers bs n.network_subs, record n { subscribers = ss }))
      × Represents ss
          (after_messages n.publishers n.by_channel (emptied bs n.network_subs) received)
unfolding network_tick
network_tick-Represents n bs received h w =
    let (ss, t, h') = transmit_all-Represents n.network_subs n bs h w.sending w.owned in
    let (ss', r, h₂) =
      receive_all-Represents received (record n { subscribers = ss }) (emptied bs n.network_subs) h'
        (IsWired-set n ss (emptied bs n.network_subs) (emptied-IsWired n n.network_subs bs w)) in
    (ss', rw (t, r) refl, h₂)

-- When two ticks of the network follow each other and nothing is published in between, the second sends nothing, whatever
-- the first has received: messages from the network are not sent back to it. The subscribers that send to the
-- network are marked as networked.
pub network_tick-no_echo :
    (n : Node) (bs : List Inbox) (received more : List Packet)
    → Represents n.subscribers bs
    → IsWired n bs
    → Sending bs n.network_subs
    → (sent : List Packet) × (n₁ n₂ : Node) × (network_tick true received n ≡ some (sent, n₁))
      × (network_tick true more n₁ ≡ some ([], n₂))
network_tick-no_echo n bs received more h w s =
    let (ss, t, h₁) = network_tick-Represents n bs received h w in
    let cs = after_messages n.publishers n.by_channel (emptied bs n.network_subs) received in
    let q =
      after_messages-Quiet n received n.network_subs (emptied bs n.network_subs)
        (emptied-Quiet n.network_subs bs s) in
    let v : IsWired n cs =
      after_messages-keeps (IsWired n) (λ m ds a. IsWired-change n (come m) ds a (come-owner m))
        n.publishers n.by_channel received (emptied bs n.network_subs)
        (emptied-IsWired n n.network_subs bs w) in
    let (ss', t', h₂) =
      network_tick-Represents (record n { subscribers = ss }) cs more h₁ (IsWired-set n ss cs v) in
    (
      outgoing_all n.publishers bs n.network_subs,
      record n { subscribers = ss },
      record n { subscribers = ss' },
      t,
      subst
          (λ xs.
            network_tick true more (record n { subscribers = ss })
            ≡ some (xs, record n { subscribers = ss' }))
          (outgoing_all-Quiet n.publishers n.network_subs cs q) t',
    )
