-- ===== src/Topics/Network.antt =====
-- What Node::network_tick sends, and where what it receives goes.
use mathlib.Core.Path.{subst}
use mathlib.Core.Option.{some-injective}
use r2dtu_attention.Common.{
  ℕ, zero, suc, ◌<◌, ◌≡◌, refl, ◌∙◌, sym, ap, true, false, inl, inr, Option, none, some, List, [],
  ◌∷◌, ◌++◌, map, arith, if◌then◌else◌, length, get_elem?, none-some, All, All-get_elem?,
  get_elem?_total, Bool-cases, Option-cases,
}
use r2dtu_attention.Message.{Packet}
use r2dtu_attention.Topics.{
  Subscriber, Publisher, Node, default_queue_size, transmit, transmit_all, deliver, lookup_channel,
  receive,
}
use r2dtu_attention.Topics.Unread.{
  Inbox, change, arrive, holding, Represents, Represents-at, push-Represents, next-Represents_nil,
  next-Represents_cons, length-some,
}
use r2dtu_attention.Topics.Delivery.{
  change-change, change-nothing, get_elem?-change, InRange, InRange-change, emptied,
}

-- A message that is sent on this channel.
abbrev pub stamped : ℕ → Packet → Packet
stamped channel msg = record msg { channel = channel }

transmit-Represents :
    (xs : List Packet) (fuel : ℕ) (n : Node) (bs : List Inbox) (a : ℕ) (b : Inbox) (channel : ℕ)
    → length xs < fuel
    → Represents n.subscribers bs
    → get_elem? bs a ≡ some b
    → b.unread ≡ xs
    → (ss : List Subscriber) × (transmit fuel a channel n
        ≡ some (map (stamped channel) xs, record n { subscribers = ss }))
      × Represents ss (change (holding []) bs a)
unfolding transmit
transmit-Represents xs zero n bs a b channel l h e u = absurd (omega arith)
transmit-Represents [] (suc fuel) n bs a b channel l h e u = (
  n.subscribers,
  rw (next-Represents_nil n bs a b h e u),
  rw (change-nothing (holding []) bs a b e (ap (λ xs. holding xs b) (sym u))) h,
)
transmit-Represents (x ∷ xs) (suc fuel) n bs a b channel l h e u =
    let (ss, p, h') = next-Represents_cons n bs a b x xs h e u in
    let (ss', q, h₂) =
      transmit-Represents xs fuel (record n { subscribers = ss }) (change (holding xs) bs a) a
        (holding xs b) channel (omega arith) h' (get_elem?-change (holding xs) bs a b e) refl in
    (ss', rw (p, q) refl, subst (Represents ss') (change-change (holding xs) (holding []) bs a) h₂)

-- The owner of each box exists.
abbrev pub Owned : List Publisher → List Inbox → Type 0
Owned publishers bs = All (λ b. b.owner < length publishers) bs

pub Owned-change :
    (publishers : List Publisher) (f : Inbox → Inbox) (bs : List Inbox) (a : ℕ)
    → ((b : Inbox) → (f b).owner ≡ b.owner)
    → Owned publishers bs
    → Owned publishers (change f bs a)
unfolding change
Owned-change publishers f [] a s h = h
Owned-change publishers f (b ∷ bs) zero s h = (rw (s b) h.0, h.1)
Owned-change publishers f (b ∷ bs) (suc a) s h = (h.0, Owned-change publishers f bs a s h.1)

Owned-at :
    (publishers : List Publisher) (bs : List Inbox) (a : ℕ) (b : Inbox)
    → Owned publishers bs
    → get_elem? bs a ≡ some b
    → b.owner < length publishers
Owned-at publishers [] a b h e = absurd (none-some e)
Owned-at publishers (c ∷ bs) zero b h e =
    subst (λ c. c.owner < length publishers) (some-injective _ _ e) h.0
Owned-at publishers (c ∷ bs) (suc a) b h e = Owned-at publishers bs a b h.1 e

-- What a box sends, on the channel of its publisher.
unfoldable pub outgoing : List Publisher → Option Inbox → List Packet
outgoing publishers none = []
outgoing publishers (some b) = elim (get_elem? publishers b.owner) [
  | none ↦ []
  | some p ↦ map (stamped p.channel_id) b.unread
]

outgoing_lem :
    (publishers : List Publisher) (b : Inbox) (p : Publisher)
    → get_elem? publishers b.owner ≡ some p
    → outgoing publishers (some b) ≡ map (stamped p.channel_id) b.unread
unfolding outgoing
outgoing_lem publishers b p e = rw (outgoing, e) refl

-- What these boxes send, one after the other.
unfoldable pub outgoing_all : List Publisher → List Inbox → List ℕ → List Packet
outgoing_all publishers bs [] = []
outgoing_all publishers bs (a ∷ ids) =
    outgoing publishers (get_elem? bs a) ++ outgoing_all publishers (change (holding []) bs a) ids

pub transmit_all-Represents :
    (ids : List ℕ) (n : Node) (bs : List Inbox)
    → Represents n.subscribers bs
    → InRange bs ids
    → Owned n.publishers bs
    → (ss : List Subscriber) × (transmit_all ids n
        ≡ some (outgoing_all n.publishers bs ids, record n { subscribers = ss }))
      × Represents ss (emptied bs ids)
unfolding transmit_all outgoing_all emptied
transmit_all-Represents [] n bs h r o = (n.subscribers, refl, h)
transmit_all-Represents (a ∷ ids) n bs h r o =
    let (b, e) = get_elem?_total bs a r.0 in
    let (s, at, shows) = Represents-at n.subscribers bs a b h e in
    let (p, found) = get_elem?_total n.publishers b.owner (Owned-at n.publishers bs a b o e) in
    let few : length b.unread < default_queue_size =
      omega (arith, shows.2.1.fits, length-some b.unread) in
    let (ss, t, h') =
      transmit-Represents b.unread default_queue_size n bs a b p.channel_id few h e refl in
    let (ss', q, h₂) =
      transmit_all-Represents ids (record n { subscribers = ss }) (change (holding []) bs a) h'
        (InRange-change (holding []) bs a ids r.1)
        (Owned-change n.publishers (holding []) bs a (λ b. refl) o) in
    (ss', rw (at, shows.0, e, outgoing_lem n.publishers b p found, found, t, q) refl, h₂)

-- A message from the network comes to a box unless it is one that sends to the network.
abbrev pub come : Packet → Inbox → Inbox
come msg b = if b.networked then b else arrive msg b

unfoldable pub come_all : Packet → List Inbox → List ℕ → List Inbox
come_all msg bs [] = bs
come_all msg bs (a ∷ ids) = come_all msg (change (come msg) bs a) ids

come-networked : (msg : Packet) (b : Inbox) → b.networked ≡ true → come msg b ≡ b
come-networked msg b e = rw e

come-local : (msg : Packet) (b : Inbox) → b.networked ≡ false → come msg b ≡ arrive msg b
come-local msg b e = rw e

change-same :
    (f g : Inbox → Inbox) (bs : List Inbox) (a : ℕ) (b : Inbox)
    → get_elem? bs a ≡ some b
    → f b ≡ g b
    → change f bs a ≡ change g bs a
unfolding change
change-same f g [] a b e h = refl
change-same f g (c ∷ bs) zero b e h =
    ap (λ z. z ∷ bs) (ap f (some-injective _ _ e) ∙ h ∙ ap g (sym (some-injective _ _ e)))
change-same f g (c ∷ bs) (suc a) b e h = ap (◌∷◌ c) (change-same f g bs a b e h)

deliver-Represents :
    (ids : List ℕ) (n : Node) (bs : List Inbox) (msg : Packet)
    → Represents n.subscribers bs
    → InRange bs ids
    → (ss : List Subscriber) × (deliver n ids msg ≡ some (record n { subscribers = ss }))
      × Represents ss (come_all msg bs ids)
unfolding deliver come_all
deliver-Represents [] n bs msg h r = (n.subscribers, refl, h)
deliver-Represents (a ∷ ids) n bs msg h r =
    let (b, e) = get_elem?_total bs a r.0 in
    let (s, at, shows) = Represents-at n.subscribers bs a b h e in
    elim (Bool-cases s.networked) [
      | inl y ↦
          let (ss, q, h') =
            deliver-Represents ids n (change (come msg) bs a) msg
              (rw (change-nothing (come msg) bs a b e (come-networked msg b (sym shows.1 ∙ y))) h)
              (InRange-change (come msg) bs a ids r.1) in
          (ss, rw (at, y) q, h')
      | inr off ↦
          let (ss, p, h') = push-Represents n bs a b msg h e in
          let (ss', q, h₂) =
            deliver-Represents ids (record n { subscribers = ss }) (change (come msg) bs a) msg
              (rw
                (change-same (come msg) (arrive msg) bs a b e
                  (come-local msg b (sym shows.1 ∙ off)))
                h')
              (InRange-change (come msg) bs a ids r.1) in
          (ss', rw (at, off, p) q, h₂)
    ]

-- The boxes after a message from the network.
unfoldable pub after_message : List Publisher → List (ℕ × ℕ) → List Inbox → Packet → List Inbox
after_message publishers channels bs msg = elim (lookup_channel channels msg.channel) [
  | none ↦ bs
  | some p ↦ elim (get_elem? publishers p) [
    | none ↦ bs
    | some publisher ↦ come_all msg bs publisher.subscribers
  ]
]

-- The subscribers of every publisher exist.
abbrev pub Linked : List Publisher → List Inbox → Type 0
Linked publishers bs = All (λ p. InRange bs p.subscribers) publishers

pub receive-Represents :
    (n : Node) (bs : List Inbox) (msg : Packet)
    → Represents n.subscribers bs
    → Linked n.publishers bs
    → ((channel p : ℕ) → lookup_channel n.by_channel channel ≡ some p → p < length n.publishers)
    → (ss : List Subscriber) × (receive n msg ≡ some (record n { subscribers = ss }))
      × Represents ss (after_message n.publishers n.by_channel bs msg)
unfolding receive after_message
receive-Represents n bs msg h l k = elim (Option-cases (lookup_channel n.by_channel msg.channel)) [
  | inl unknown ↦ (n.subscribers, rw (receive, unknown) refl, rw (after_message, unknown) h)
  | inr (p, found) ↦
      let (publisher, e) = get_elem?_total n.publishers p (k msg.channel p found) in
      let (ss, d, h') =
        deliver-Represents publisher.subscribers n bs msg h
          (All-get_elem? (λ p. InRange bs p.subscribers) n.publishers p publisher l e) in
      (ss, rw (receive, found, e) d, rw (after_message, found, e) h')
]
