-- ===== src/Topics.antt =====
-- include/core/Node.h: topics, their publishers and subscribers, with Node::network_tick of src/core/Node.cpp; Topics/Handler
-- is include/common/SubscriptionHandler.h. The objects that are reached by pointers are in two lists, and a
-- pointer is an index. A message is a packet, whose type is a name. `none` is an abort or undefined
-- behaviour; the locks are left out, each call is one step.
pub mod Handler
pub mod Unread
pub mod Delivery
pub mod Network
pub mod Receive
pub mod Echo
pub mod Again
use text.Mathlib.Text.{◌==◌ as str_eq}
use r2dtu_attention.Common.{
  ℕ, zero, suc, Bool, true, false, Option, none, some, String, List, [], ◌∷◌, ◌++◌, if◌then◌else◌,
  length, get_elem?, set, ◌==◌, ◌>>=◌,
}
use r2dtu_attention.Common.Texts.{lookup_name}
use r2dtu_attention.Buffers.Queue.{MpscQueue, mpsc_queue, get, put}
use r2dtu_attention.Message.{Packet}
use r2dtu_attention.Store.Redis.{Redis}
use r2dtu_attention.Store.Channels.{channel_id}

-- A shared pointer to a message may be null.
pub record Subscriber : Type 0 where
  pub owner : ℕ
  pub queue : MpscQueue (Option Packet)
  pub networked : Bool

pub record Publisher : Type 0 where
  pub subscribers : List ℕ
  pub type_info : String
  pub channel_id : ℕ

-- Node: the subscribers and publishers, the publishers by topic and by channel, and the subscribers that send what is
-- published here to the network.
pub record Node : Type 0 where
  pub subscribers : List Subscriber
  pub publishers : List Publisher
  pub by_topic : List (String × ℕ)
  pub by_channel : List (ℕ × ℕ)
  pub network_subs : List ℕ

-- Subscriber::DEFAULT_QUEUE_SIZE
abbrev pub default_queue_size : ℕ
default_queue_size = 16

-- Subscriber::push
unfoldable pub push : Node → ℕ → Packet → Option Node
push n a msg = do
  s ← get_elem? n.subscribers a
  q ← put s.queue (some msg)
  some (record n { subscribers = set n.subscribers a (record s { queue = q }) })

-- What next makes of the queue's answer: a null message is an abort.
unfoldable pub checked : Option (Option Packet) → Node → Option (Option Packet × Node)
checked none n = some (none, n)
checked (some none) n = none
checked (some (some msg)) n = some (some msg, n)

-- Subscriber::next
unfoldable pub next : Node → ℕ → Option (Option Packet × Node)
unfolding checked
next n a = do
  s ← get_elem? n.subscribers a
  (msg, q) ← get none s.queue
  checked msg (record n { subscribers = set n.subscribers a (record s { queue = q }) })

-- The loop of publish, over the publisher's subscribers.
unfoldable pub push_all : Node → List ℕ → Packet → Option Node
unfolding push
push_all n [] msg = some n
push_all n (a ∷ ids) msg = push n a msg >>= λ n'. push_all n' ids msg

-- Publisher::publish of a message of type `type`
unfoldable pub publish : Node → ℕ → String → Packet → Option Node
unfolding push_all
publish n p type msg = get_elem? n.publishers p >>= λ publisher.
    if str_eq type publisher.type_info then push_all n publisher.subscribers msg else none

-- Publisher::add_subscriber; the result is the new subscriber.
unfoldable pub add_subscriber : Node → ℕ → Option (ℕ × Node)
add_subscriber n p = get_elem? n.publishers p >>= λ publisher.
    let a = length n.subscribers in
    some (
      a,
      record n {
        subscribers =
            n.subscribers
            ++ record { owner = p; queue = mpsc_queue none default_queue_size; networked = false }
              ∷ [];
        publishers =
            set n.publishers p (record publisher { subscribers = publisher.subscribers ++ a ∷ [] });
      },
    )

module _ (redis : Redis) where
  open redis use {Server}

  -- The publisher of a topic that has none yet.
  unfoldable pub add_publisher : Node → String → String → ℕ → ℕ × Node
  add_publisher n type topic id =
      let p = length n.publishers in
      (
        p,
        record n {
          publishers =
              n.publishers ++ record { subscribers = []; type_info = type; channel_id = id } ∷ [];
          by_topic = n.by_topic ++ (topic, p) ∷ [];
          by_channel = n.by_channel ++ (id, p) ∷ [];
        },
      )

  -- Node::advertise; the result is the publisher.
  unfoldable pub advertise : Server → Node → String → String → Option ((ℕ × Node) × Server)
  unfolding add_publisher channel_id
  advertise s n type topic = elim (lookup_name n.by_topic topic) [
    | some p ↦ get_elem? n.publishers p >>= λ publisher.
        if str_eq publisher.type_info type then some ((p, n), s) else none
    | none ↦ channel_id redis s topic >>= λ (id, s'). some (add_publisher n type topic id, s')
  ]

  -- Node::subscribe; the result is the subscriber.
  unfoldable pub subscribe : Server → Node → String → String → Option ((ℕ × Node) × Server)
  unfolding advertise add_subscriber
  subscribe s n type topic = do
    ((p, n₁), s₁) ← advertise s n type topic
    (a, n₂) ← add_subscriber n₁ p
    some ((a, n₂), s₁)

  -- Node::network_advertise, with Subscriber::mark_as_networked
  unfoldable pub network_advertise : Server → Node → String → String → Option (Node × Server)
  unfolding subscribe
  network_advertise s n type topic = do
    ((a, n₁), s₁) ← subscribe s n type topic
    sub ← get_elem? n₁.subscribers a
    some (
      record n₁ {
        subscribers = set n₁.subscribers a (record sub { networked = true });
        network_subs = n₁.network_subs ++ a ∷ [];
      },
      s₁,
    )

-- The messages that a subscriber has not read, with the channel written into them. The other queues hold the
-- same objects, but nothing reads the channel there. A queue of 16 cells is empty after 16 calls of next.
unfoldable pub transmit : ℕ → ℕ → ℕ → Node → Option (List Packet × Node)
unfolding next
transmit zero a channel n = none
transmit (suc fuel) a channel n = next n a >>= λ (opt, n'). elim opt [
  | none ↦ some ([], n')
  | some msg ↦ transmit fuel a channel n' >>= λ (sent, n₂).
      some (record msg { channel = channel } ∷ sent, n₂)
]

-- The first loop of network_tick, with the packets in the order of Network::transmit.
unfoldable pub transmit_all : List ℕ → Node → Option (List Packet × Node)
transmit_all [] n = some ([], n)
transmit_all (a ∷ ids) n = do
  s ← get_elem? n.subscribers a
  publisher ← get_elem? n.publishers s.owner
  (sent, n₁) ← transmit default_queue_size a publisher.channel_id n
  (more, n₂) ← transmit_all ids n₁
  some (sent ++ more, n₂)

-- publishers_by_channel_.find
unfoldable pub lookup_channel : List (ℕ × ℕ) → ℕ → Option ℕ
lookup_channel [] channel = none
lookup_channel ((key, p) ∷ entries) channel =
    if key == channel then some p else lookup_channel entries channel

-- A message from the network, for the subscribers of its channel that are not networked.
unfoldable pub deliver : Node → List ℕ → Packet → Option Node
deliver n [] msg = some n
deliver n (a ∷ ids) msg = get_elem? n.subscribers a >>= λ s.
    let n' = if s.networked then some n else push n a msg in n' >>= λ m. deliver m ids msg

unfoldable pub receive : Node → Packet → Option Node
unfolding deliver lookup_channel
receive n msg = elim (lookup_channel n.by_channel msg.channel) [
  | none ↦ some n
  | some p ↦ get_elem? n.publishers p >>= λ publisher. deliver n publisher.subscribers msg
]

unfoldable pub receive_all : Node → List Packet → Option Node
unfolding receive
receive_all n [] = some n
receive_all n (msg ∷ msgs) = receive n msg >>= λ n'. receive_all n' msgs

-- Node::network_tick, where the network has received `received`; the result has the packets for the network.
unfoldable pub network_tick : Bool → List Packet → Node → Option (List Packet × Node)
unfolding transmit_all receive_all
network_tick is_initialized received n =
    if is_initialized
    then (transmit_all n.network_subs n >>= λ (sent, n').
        receive_all n' received >>= λ n₂. some (sent, n₂))
    else some ([], n)
