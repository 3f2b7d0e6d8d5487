-- ===== src/Checks/Networks.antt =====
-- A node with one topic: a subscriber that sends to the network, and a local one.
use r2dtu_attention.Common.{
  ℕ, ◌<◌, ◌≡◌, refl, Bool, true, false, inl, inr, Option, none, some, List, [], ◌∷◌, arith, length,
  replicate, none-some, Bool-cases, ◌==◌,
}
use mathlib.Core.Option.{some-injective}
use mathlib.Core.Path.{subst}
use r2dtu_attention.Message.{Packet}
use r2dtu_attention.Buffers.Round.{Holds-nil}
use r2dtu_attention.Buffers.Queue.{mpsc_queue}
use r2dtu_attention.Buffers.QueueLaws.{Contains}
use r2dtu_attention.Topics.{
  Subscriber, Publisher, Node, default_queue_size, lookup_channel, publish, network_tick,
}
use r2dtu_attention.Topics.Handler.{tick}
use r2dtu_attention.Topics.Unread.{Inbox, change, Represents}
use r2dtu_attention.Topics.Delivery.{
  arrive_all, quiet_all, told, told_all, Reader, emptied, publish-Represents, tick-Represents,
}
use r2dtu_attention.Topics.Network.{outgoing, outgoing_all}
use r2dtu_attention.Topics.Receive.{IsWired, after_messages}
use r2dtu_attention.Topics.Echo.{network_tick-Represents, network_tick-no_echo}

abbrev packet : ℕ → Packet
packet n = record { size = n; channel = 0; struct_size = n; words = []; rest = [] }

abbrev from_network : Packet
from_network = record { size = 9; channel = 7; struct_size = 9; words = []; rest = [] }

abbrev speech : Publisher
speech = record { subscribers = 0 ∷ 1 ∷ []; type_info = "SayMsg"; channel_id = 7 }

abbrev two_subscribers : Bool → Subscriber
two_subscribers networked = record { owner = 0; queue = mpsc_queue none 16; networked = networked }

abbrev node : Node
node = record {
  subscribers = two_subscribers true ∷ two_subscribers false ∷ [];
  publishers = speech ∷ [];
  by_topic = ("speech", 0) ∷ [];
  by_channel = (7, 0) ∷ [];
  network_subs = 0 ∷ [];
}

abbrev box : Bool → List Packet → Inbox
box networked unread = record { owner = 0; networked = networked; unread = unread }

abbrev boxes : List Packet → List Inbox
boxes unread = box true unread ∷ box false unread ∷ []

node-Represents : Represents node.subscribers (boxes [])
unfolding Represents mpsc_queue
node-Represents =
    let c : Contains 16 (mpsc_queue {V = Option Packet} none 16) [] =
      (refl, Holds-nil (replicate 16 none) 16 0 (omega arith) (omega arith)) in
    ((refl, refl, c), ((refl, refl, c), tt))

known_channel :
    (channel p : ℕ) → lookup_channel node.by_channel channel ≡ some p → p < length node.publishers
unfolding lookup_channel
known_channel channel p e = elim (Bool-cases (7 == channel)) [
  | inl y ↦ subst (λ q. q < 1) (some-injective _ _ (rw y at e)) (omega arith)
  | inr other ↦ absurd (none-some (rw other at e))
]

node-IsWired : (unread : List Packet) → IsWired node (boxes unread)
node-IsWired unread = record {
  linked = ((omega arith, (omega arith, tt)), tt);
  owned = (omega arith, (omega arith, tt));
  sending = (omega arith, tt);
  known = known_channel;
}

-- A message is published; both subscribers have it then.
publish-Represents_example :
    (ss : List Subscriber) × (publish node 0 "SayMsg" (packet 3)
      ≡ some (record node { subscribers = ss }))
    × Represents ss (arrive_all (packet 3) (boxes []) (0 ∷ 1 ∷ []))
publish-Represents_example =
    publish-Represents node 0 speech (boxes []) "SayMsg" (packet 3) refl node-Represents
      (omega arith, (omega arith, tt))

abbrev published : Node
published = record node {
  subscribers =
      (publish-Represents node 0 speech (boxes []) "SayMsg" (packet 3) refl node-Represents
        (omega arith, (omega arith, tt))).0;
}

published-Represents : Represents published.subscribers (boxes (packet 3 ∷ []))
unfolding arrive_all change
published-Represents =
    (publish-Represents node 0 speech (boxes []) "SayMsg" (packet 3) refl node-Represents
      (omega arith, (omega arith, tt))).2

published-IsWired : IsWired published (boxes (packet 3 ∷ []))
published-IsWired =
    let w = node-IsWired (packet 3 ∷ []) in
    record { linked = w.linked; owned = w.owned; sending = w.sending; known = w.known }

-- The callback of the local subscription notes the sizes.
abbrev listener : Reader (List ℕ)
listener = (1, "speech", λ msg sizes. msg.size ∷ sizes)

tick-Represents_example :
    (ss : List Subscriber) × (tick default_queue_size (quiet_all (listener ∷ [])) (published, [])
      ≡ some (record published { subscribers = ss }, 3 ∷ []))
    × Represents ss (emptied (boxes (packet 3 ∷ [])) (1 ∷ []))
unfolding told_all told change
tick-Represents_example =
    tick-Represents (listener ∷ []) published (boxes (packet 3 ∷ [])) [] published-Represents
      (omega arith, tt)

network_tick-Represents_example :
    (ss : List Subscriber) × (network_tick true (from_network ∷ []) published
      ≡ some (record (packet 3) { channel = 7 } ∷ [], record published { subscribers = ss }))
    × Represents ss (
        after_messages published.publishers published.by_channel
          (emptied (boxes (packet 3 ∷ [])) published.network_subs)
          (from_network ∷ []))
unfolding outgoing_all outgoing
network_tick-Represents_example =
    network_tick-Represents published (boxes (packet 3 ∷ [])) (from_network ∷ [])
      published-Represents published-IsWired

network_tick-no_echo_example :
    (sent : List Packet) × (n₁ n₂ : Node) × (network_tick true (from_network ∷ []) published
      ≡ some (sent, n₁))
    × (network_tick true [] n₁ ≡ some ([], n₂))
network_tick-no_echo_example =
    network_tick-no_echo published (boxes (packet 3 ∷ [])) (from_network ∷ []) []
      published-Represents published-IsWired ((box true (packet 3 ∷ []), refl, refl), tt)
