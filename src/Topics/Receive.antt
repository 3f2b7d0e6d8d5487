-- ===== src/Topics/Receive.antt =====
-- The messages that Node::network_tick receives, one after the other.
use r2dtu_attention.Common.{
  ℕ, ◌<◌, ◌≡◌, refl, inl, inr, some, List, [], ◌∷◌, length, get_elem?, All-map, Option-cases,
  Bool-cases,
}
use r2dtu_attention.Message.{Packet}
use r2dtu_attention.Topics.{Subscriber, Publisher, Node, lookup_channel, receive_all}
use r2dtu_attention.Topics.Unread.{Inbox, change, holding, Represents}
use r2dtu_attention.Topics.Delivery.{InRange, InRange-change, emptied}
use r2dtu_attention.Topics.Network.{
  Owned, Owned-change, Linked, come, come_all, after_message, receive-Represents,
}

-- The boxes after the messages from the network.
unfoldable pub after_messages :
    List Publisher → List (ℕ × ℕ) → List Inbox → List Packet → List Inbox
after_messages publishers channels bs [] = bs
after_messages publishers channels bs (msg ∷ msgs) =
    after_messages publishers channels (after_message publishers channels bs msg) msgs

-- What each arrival leaves alone, all of them do.
module _ (P : List Inbox → Type 0) where
  module _
      (step : (msg : Packet) (bs : List Inbox) (a : ℕ) → P bs → P (change (come msg) bs a)) where
    come_all-keeps :
        (msg : Packet) (ids : List ℕ) (bs : List Inbox) → P bs → P (come_all msg bs ids)
    unfolding come_all
    come_all-keeps msg [] bs h = h
    come_all-keeps msg (a ∷ ids) bs h =
        come_all-keeps msg ids (change (come msg) bs a) (step msg bs a h)

    after_message-keeps :
        (publishers : List Publisher) (channels : List (ℕ × ℕ)) (msg : Packet) (bs : List Inbox)
        → P bs
        → P (after_message publishers channels bs msg)
    unfolding after_message
    after_message-keeps publishers channels msg bs h =
        elim (Option-cases (lookup_channel channels msg.channel)) [
          | inl unknown ↦ rw (after_message, unknown) h
          | inr (p, found) ↦ elim (Option-cases (get_elem? publishers p)) [
            | inl missing ↦ rw (after_message, found, missing) h
            | inr (publisher, e) ↦
                rw (after_message, found, e) (come_all-keeps msg publisher.subscribers bs h)
          ]
        ]

    pub after_messages-keeps :
        (publishers : List Publisher) (channels : List (ℕ × ℕ)) (msgs : List Packet)
        (bs : List Inbox)
        → P bs
        → P (after_messages publishers channels bs msgs)
    unfolding after_messages
    after_messages-keeps publishers channels [] bs h = h
    after_messages-keeps publishers channels (msg ∷ msgs) bs h =
        after_messages-keeps publishers channels msgs (after_message publishers channels bs msg)
          (after_message-keeps publishers channels msg bs h)

  pub emptied-keeps :
      ((bs : List Inbox) (a : ℕ) → P bs → P (change (holding []) bs a))
      → (ids : List ℕ) (bs : List Inbox) → P bs
      → P (emptied bs ids)
  unfolding emptied
  emptied-keeps step [] bs h = h
  emptied-keeps step (a ∷ ids) bs h =
      emptied-keeps step ids (change (holding []) bs a) (step bs a h)

-- The pointers of a node lead somewhere.
pub record IsWired (n : Node) (bs : List Inbox) : Type 0 where
  pub linked : Linked n.publishers bs
  pub owned : Owned n.publishers bs
  pub sending : InRange bs n.network_subs
  pub known :
      (channel p : ℕ) → lookup_channel n.by_channel channel ≡ some p → p < length n.publishers

pub IsWired-change :
    (n : Node) (f : Inbox → Inbox) (bs : List Inbox) (a : ℕ)
    → ((b : Inbox) → (f b).owner ≡ b.owner)
    → IsWired n bs
    → IsWired n (change f bs a)
IsWired-change n f bs a s w = record {
  linked = All-map n.publishers (λ p. InRange-change f bs a p.subscribers) w.linked;
  owned = Owned-change n.publishers f bs a s w.owned;
  sending = InRange-change f bs a n.network_subs w.sending;
  known = w.known;
}

pub come-owner : (msg : Packet) (b : Inbox) → (come msg b).owner ≡ b.owner
come-owner msg b = elim (Bool-cases b.networked) [ inl y ↦ rw y refl | inr off ↦ rw off refl ]

pub receive_all-Represents :
    (msgs : List Packet) (n : Node) (bs : List Inbox)
    → Represents n.subscribers bs
    → IsWired n bs
    → (ss : List Subscriber) × (receive_all n msgs ≡ some (record n { subscribers = ss }))
      × Represents ss (after_messages n.publishers n.by_channel bs msgs)
unfolding receive_all after_messages
receive_all-Represents [] n bs h w = (n.subscribers, refl, h)
receive_all-Represents (msg ∷ msgs) n bs h w =
    let (ss, p, h') = receive-Represents n bs msg h w.linked w.known in
    let v =
      after_message-keeps (IsWired n) (λ m cs a. IsWired-change n (come m) cs a (come-owner m))
        n.publishers n.by_channel msg bs w in
    let (ss', q, h₂) =
      receive_all-Represents msgs (record n { subscribers = ss })
        (after_message n.publishers n.by_channel bs msg) h'
        (record { linked = v.linked; owned = v.owned; sending = v.sending; known = v.known }) in
    (ss', rw p q, h₂)
