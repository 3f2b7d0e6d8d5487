-- ===== src/Topics/Unread.antt =====
-- The topics against their specification, in which a subscriber is a list of the messages that it has not read.
use mathlib.Core.Path.{subst}
use mathlib.Core.Option.{some-injective}
use r2dtu_attention.Common.{
  ℕ, zero, suc, ◌≡◌, refl, sym, ap, Bool, inl, inr, none, some, List, [], ◌∷◌, map, ltb, length,
  get_elem?, set, Bool-cases, none-some, ◌+◌,
}
use mathlib.Core.List.{map-append}
use r2dtu_attention.Message.{Packet}
use r2dtu_attention.Buffers.QueueLaws.{
  Contains, after_put, put-Contains, get-Contains_nil, get-Contains_cons,
}
use r2dtu_attention.Topics.{Subscriber, Node, default_queue_size, push, checked, next}

-- A subscriber as its users see it.
pub record Inbox : Type 0 where
  pub owner : ℕ
  pub networked : Bool
  pub unread : List Packet

-- The change of one element.
unfoldable pub change {ℓ} : {A : Type ℓ} → (A → A) → List A → ℕ → List A
change f [] i = []
change f (x ∷ xs) zero = f x ∷ xs
change f (x ∷ xs) (suc i) = x ∷ change f xs i

-- A message that arrives; the sixteenth empties the box.
abbrev pub arrive : Packet → Inbox → Inbox
arrive msg b = record b { unread = after_put default_queue_size b.unread msg }

abbrev pub Shows : Subscriber → Inbox → Type 0
Shows s b =
    (s.owner ≡ b.owner)
    × (s.networked ≡ b.networked)
    × Contains default_queue_size s.queue (map some b.unread)

unfoldable pub Represents : List Subscriber → List Inbox → Type 0
Represents [] [] = Unit {0}
Represents [] (b ∷ bs) = ⊥
Represents (s ∷ ss) [] = ⊥
Represents (s ∷ ss) (b ∷ bs) = Shows s b × Represents ss bs

pub Represents-at :
    (ss : List Subscriber) (bs : List Inbox) (a : ℕ) (b : Inbox)
    → Represents ss bs
    → get_elem? bs a ≡ some b
    → (s : Subscriber) × (get_elem? ss a ≡ some s) × Shows s b
unfolding Represents
Represents-at [] [] a b h e = absurd (none-some e)
Represents-at [] (c ∷ bs) a b h e = absurd h
Represents-at (s ∷ ss) [] a b h e = absurd h
Represents-at (s ∷ ss) (c ∷ bs) zero b h e = (s, refl, subst (Shows s) (some-injective _ _ e) h.0)
Represents-at (s ∷ ss) (c ∷ bs) (suc a) b h e = Represents-at ss bs a b h.1 e

-- One subscriber and its box change alike.
pub Represents-change :
    (ss : List Subscriber) (bs : List Inbox) (a : ℕ) (b : Inbox) (s : Subscriber)
    (f : Inbox → Inbox)
    → Represents ss bs
    → get_elem? bs a ≡ some b
    → Shows s (f b)
    → Represents (set ss a s) (change f bs a)
unfolding Represents change
Represents-change [] [] a b s f h e w = absurd (none-some e)
Represents-change [] (c ∷ bs) a b s f h e w = absurd h
Represents-change (t ∷ ss) [] a b s f h e w = absurd h
Represents-change (t ∷ ss) (c ∷ bs) zero b s f h e w =
    (subst (λ c. Shows s (f c)) (sym (some-injective _ _ e)) w, h.1)
Represents-change (t ∷ ss) (c ∷ bs) (suc a) b s f h e w =
    (h.0, Represents-change ss bs a b s f h.1 e w)

pub length-some : (xs : List Packet) → length (map some xs) ≡ length xs
length-some [] = refl
length-some (x ∷ xs) = ap suc (length-some xs)

after_put-map :
    (size : ℕ) (xs : List Packet) (m : Packet)
    → after_put size (map some xs) (some m) ≡ map some (after_put size xs m)
after_put-map size xs m = elim (Bool-cases (ltb (length xs + 1) size)) [
  | inl y ↦ rw (length-some xs, y, map-append some xs (m ∷ []))
  | inr n ↦ rw (length-some xs, n)
]

pub push-Represents :
    (n : Node) (bs : List Inbox) (a : ℕ) (b : Inbox) (msg : Packet)
    → Represents n.subscribers bs
    → get_elem? bs a ≡ some b
    → (ss : List Subscriber) × (push n a msg ≡ some (record n { subscribers = ss }))
      × Represents ss (change (arrive msg) bs a)
unfolding push
push-Represents n bs a b msg h e =
    let (s, at, shows) = Represents-at n.subscribers bs a b h e in
    let (q, p, c') = put-Contains (some msg) shows.2 in
    (
      set n.subscribers a (record s { queue = q }),
      rw (at, p),
      Represents-change n.subscribers bs a b (record s { queue = q }) (arrive msg) h e
          (
            shows.0,
            shows.1,
            subst (Contains default_queue_size q) (after_put-map _ b.unread msg) c',
          ),
    )

-- A box in which these messages are unread.
abbrev pub holding : List Packet → Inbox → Inbox
holding xs b = record b { unread = xs }

set-same :
    (ss : List Subscriber) (a : ℕ) (s : Subscriber) → get_elem? ss a ≡ some s → set ss a s ≡ ss
set-same [] a s e = refl
set-same (t ∷ ss) zero s e = ap (λ x. x ∷ ss) (sym (some-injective _ _ e))
set-same (t ∷ ss) (suc a) s e = ap (◌∷◌ t) (set-same ss a s e)

pub next-Represents_nil :
    (n : Node) (bs : List Inbox) (a : ℕ) (b : Inbox)
    → Represents n.subscribers bs
    → get_elem? bs a ≡ some b
    → b.unread ≡ []
    → next n a ≡ some (none, n)
unfolding next checked
next-Represents_nil n bs a b h e none_left =
    let (s, at, shows) = Represents-at n.subscribers bs a b h e in
    let c = subst (λ xs. Contains default_queue_size s.queue (map some xs)) none_left shows.2 in
    rw (at, get-Contains_nil none c, set-same n.subscribers a s at) refl

pub next-Represents_cons :
    (n : Node) (bs : List Inbox) (a : ℕ) (b : Inbox) (x : Packet) (xs : List Packet)
    → Represents n.subscribers bs
    → get_elem? bs a ≡ some b
    → b.unread ≡ x ∷ xs
    → (ss : List Subscriber) × (next n a ≡ some (some x, record n { subscribers = ss }))
      × Represents ss (change (holding xs) bs a)
unfolding next checked
next-Represents_cons n bs a b x xs h e u =
    let (s, at, shows) = Represents-at n.subscribers bs a b h e in
    let c = subst (λ ys. Contains default_queue_size s.queue (map some ys)) u shows.2 in
    let (q, p, c') = get-Contains_cons none c in
    (
      set n.subscribers a (record s { queue = q }),
      rw (at, p) refl,
      Represents-change n.subscribers bs a b (record s { queue = q }) (holding xs) h e
          (shows.0, shows.1, c'),
    )
