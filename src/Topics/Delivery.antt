-- ===== src/Topics/Delivery.antt =====
-- What publish and the tick of a subscription handler do to the messages that are unread.
use mathlib.Core.Path.{subst}
use mathlib.Core.Option.{some-injective}
use text.Mathlib.Text.{◌==◌ as str_eq}
use r2dtu_attention.Common.{
  ℕ, zero, suc, ◌<◌, ◌≡◌, refl, ◌∙◌, sym, ap, none, some, String, List, [], ◌∷◌, map, arith,
  if◌then◌else◌, length, get_elem?, none-some, All, get_elem?_total,
}
use r2dtu_attention.Message.{Packet}
use r2dtu_attention.Topics.{Subscriber, Publisher, Node, default_queue_size, push_all, publish}
use r2dtu_attention.Topics.Unread.{
  Inbox, change, arrive, holding, Represents, Represents-at, push-Represents, next-Represents_nil,
  next-Represents_cons, length-some,
}
use r2dtu_attention.Topics.Handler.{Subscription, read_all, tick}

module _ {ℓ} {A : Type ℓ} where
  length-change : (f : A → A) (xs : List A) (i : ℕ) → length (change f xs i) ≡ length xs
  unfolding change
  length-change f [] i = refl
  length-change f (x ∷ xs) zero = refl
  length-change f (x ∷ xs) (suc i) = ap suc (length-change f xs i)

  pub get_elem?-change :
      (f : A → A) (xs : List A) (i : ℕ) (x : A)
      → get_elem? xs i ≡ some x
      → get_elem? (change f xs i) i ≡ some (f x)
  unfolding change
  get_elem?-change f [] i x e = absurd (none-some e)
  get_elem?-change f (y ∷ xs) zero x e = ap (λ z. some (f z)) (some-injective _ _ e)
  get_elem?-change f (y ∷ xs) (suc i) x e = get_elem?-change f xs i x e

  pub change-change :
      (f g : A → A) (xs : List A) (i : ℕ) → change g (change f xs i) i ≡ change (λ x. g (f x)) xs i
  unfolding change
  change-change f g [] i = refl
  change-change f g (x ∷ xs) zero = refl
  change-change f g (x ∷ xs) (suc i) = ap (◌∷◌ x) (change-change f g xs i)

  pub change-nothing :
      (f : A → A) (xs : List A) (i : ℕ) (x : A)
      → get_elem? xs i ≡ some x
      → f x ≡ x
      → change f xs i ≡ xs
  unfolding change
  change-nothing f [] i x e h = refl
  change-nothing f (y ∷ xs) zero x e h =
      ap (λ z. z ∷ xs) (ap f (some-injective _ _ e) ∙ h ∙ sym (some-injective _ _ e))
  change-nothing f (y ∷ xs) (suc i) x e h = ap (◌∷◌ y) (change-nothing f xs i x e h)

-- The boxes that these pointers lead to exist.
abbrev pub InRange : List Inbox → List ℕ → Type 0
InRange bs ids = All (λ a. a < length bs) ids

-- A message comes to each of these boxes.
unfoldable pub arrive_all : Packet → List Inbox → List ℕ → List Inbox
arrive_all msg bs [] = bs
arrive_all msg bs (a ∷ ids) = arrive_all msg (change (arrive msg) bs a) ids

pub InRange-change :
    (f : Inbox → Inbox) (bs : List Inbox) (a : ℕ) (ids : List ℕ)
    → InRange bs ids
    → InRange (change f bs a) ids
InRange-change f bs a ids h = rw (length-change f bs a) h

push_all-Represents :
    (ids : List ℕ) (n : Node) (bs : List Inbox) (msg : Packet)
    → Represents n.subscribers bs
    → InRange bs ids
    → (ss : List Subscriber) × (push_all n ids msg ≡ some (record n { subscribers = ss }))
      × Represents ss (arrive_all msg bs ids)
unfolding push_all arrive_all
push_all-Represents [] n bs msg h r = (n.subscribers, refl, h)
push_all-Represents (a ∷ ids) n bs msg h r =
    let (b, e) = get_elem?_total bs a r.0 in
    let (ss, p, h') = push-Represents n bs a b msg h e in
    let (ss', q, h₂) =
      push_all-Represents ids (record n { subscribers = ss }) _ msg h'
        (InRange-change (arrive msg) bs a ids r.1) in
    (ss', rw p q, h₂)

-- A publish of a message of the topic's type puts it last in the box of every subscriber of the topic, and changes nothing
-- else; a sixteenth unread message empties the box instead. A message of another type is an abort.
pub publish-Represents :
    (n : Node) (p : ℕ) (publisher : Publisher) (bs : List Inbox) (type : String) (msg : Packet)
    → get_elem? n.publishers p ≡ some publisher
    → Represents n.subscribers bs
    → InRange bs publisher.subscribers
    → (ss : List Subscriber) × (publish n p type msg
        ≡ (if str_eq type publisher.type_info then some (record n { subscribers = ss }) else none))
      × Represents ss (arrive_all msg bs publisher.subscribers)
unfolding publish
publish-Represents n p publisher bs type msg e h r =
    let (ss, q, h') = push_all-Represents publisher.subscribers n bs msg h r in
    (ss, rw (e, q) refl, h')

-- A subscription: the subscriber, the topic, and what the callback does to the machine.
abbrev pub Reader {ℓ} : Type ℓ → Type ℓ
Reader M = ℕ × String × (Packet → M → M)

-- The boxes after a tick that reads these subscribers.
unfoldable pub emptied : List Inbox → List ℕ → List Inbox
emptied bs [] = bs
emptied bs (a ∷ ids) = emptied (change (holding []) bs a) ids

module _ {ℓ} {M : Type ℓ} where
  -- A subscription whose callback leaves the node alone.
  abbrev pub quiet : ℕ → String → (Packet → M → M) → Subscription M
  quiet a topic f = record {
    subscriber = a;
    callback = λ msg x. some (x.0, f msg x.1);
    topic = topic;
  }

  -- The callback is called with each of the messages, in order.
  unfoldable pub told : (Packet → M → M) → List Packet → M → M
  told f [] m = m
  told f (x ∷ xs) m = told f xs (f x m)

  read_all-Represents :
      (xs : List Packet) (fuel : ℕ) (n : Node) (bs : List Inbox) (a : ℕ) (b : Inbox)
      (topic : String) (f : Packet → M → M) (m : M)
      → length xs < fuel
      → Represents n.subscribers bs
      → get_elem? bs a ≡ some b
      → b.unread ≡ xs
      → (ss : List Subscriber) × (read_all fuel (quiet a topic f) (n, m)
          ≡ some (record n { subscribers = ss }, told f xs m))
        × Represents ss (change (holding []) bs a)
  unfolding read_all told
  read_all-Represents xs zero n bs a b topic f m l h e u = absurd (omega arith)
  read_all-Represents [] (suc fuel) n bs a b topic f m l h e u = (
    n.subscribers,
    rw (next-Represents_nil n bs a b h e u),
    rw (change-nothing (holding []) bs a b e (ap (λ xs. holding xs b) (sym u))) h,
  )
  read_all-Represents (x ∷ xs) (suc fuel) n bs a b topic f m l h e u =
      let (ss, p, h') = next-Represents_cons n bs a b x xs h e u in
      let (ss', q, h₂) =
        read_all-Represents xs fuel (record n { subscribers = ss }) (change (holding xs) bs a) a
          (holding xs b) topic f (f x m) (omega arith) h' (get_elem?-change (holding xs) bs a b e)
          refl in
      (ss', rw p q, subst (Represents ss') (change-change (holding xs) (holding []) bs a) h₂)

  abbrev pub quiet_all : List (Reader M) → List (Subscription M)
  quiet_all readers = map (λ r. quiet r.0 r.1 r.2) readers

  -- What the machine is told: the messages of each subscription in turn, in the order in which they arrived.
  unfoldable pub told_all : List (Reader M) → List Inbox → M → M
  told_all [] bs m = m
  told_all ((a, topic, f) ∷ readers) bs m =
      told_all readers (change (holding []) bs a)
        (elim (get_elem? bs a) [ none ↦ m | some b ↦ told f b.unread m ])

  -- When no callback touches the node, the tick of a subscription handler ends, each loop within as many rounds as
  -- a queue has cells. Each subscription in turn gets exactly the messages that its subscriber has
  -- not read, in the order of their arrival, and afterwards these boxes are empty and nothing else has
  -- changed.
  pub tick-Represents :
      (readers : List (Reader M)) (n : Node) (bs : List Inbox) (m : M)
      → Represents n.subscribers bs
      → InRange bs (map (λ r. r.0) readers)
      → (ss : List Subscriber) × (tick default_queue_size (quiet_all readers) (n, m)
          ≡ some (record n { subscribers = ss }, told_all readers bs m))
        × Represents ss (emptied bs (map (λ r. r.0) readers))
  unfolding tick told_all emptied
  tick-Represents [] n bs m h r = (n.subscribers, refl, h)
  tick-Represents ((a, topic, f) ∷ readers) n bs m h r =
      let (b, e) = get_elem?_total bs a r.0 in
      let (s, at, shows) = Represents-at n.subscribers bs a b h e in
      let few : length b.unread < default_queue_size =
        omega (arith, shows.2.1.fits, length-some b.unread) in
      let (ss, p, h') =
        read_all-Represents b.unread default_queue_size n bs a b topic f m few h e refl in
      let (ss', q, h₂) =
        tick-Represents readers (record n { subscribers = ss }) (change (holding []) bs a)
          (told f b.unread m) h' (InRange-change (holding []) bs a _ r.1) in
      (ss', rw (e, p) q, h₂)
