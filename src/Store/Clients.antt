-- ===== src/Store/Clients.antt =====
-- Several nodes advertise at the same time: the commands of their clients come in any order.
use mathlib.Core.Path.{◌≡◌, refl, sym, ap, ◌∙◌}
use mathlib.Core.Option.{some-injective}
use native.Mathlib.Nat.{mod-eq_of_lt}
use r2dtu_attention.Common.{
  ℕ, suc, ◌%◌, ◌<◌, Option, none, some, String, [], ◌∷◌, Option-cases, inl, inr, arith, none-some,
  Bool, ◌==◌, ◌⊎◌, List,
}
use r2dtu_attention.Common.Texts.{to_string, c_str}
use r2dtu_attention.Common.Decimals.{stoi-to_string, c_str-to_string}
use r2dtu_attention.Store.Redis.{
  Redis, Laws, Reply, status, string, nil, error, score_reply, integer, nx, incr, zadd, zscore,
  integer_reply, scored,
}
use r2dtu_attention.Store.Channels.{
  topics, next_id, Phase, ready, missed, numbered, added, done, Client, found, client_step,
}

-- Channel numbers are read by std::stoi as an int.
abbrev pub max_channel : ℕ
max_channel = 2147483648

-- The keys of the program have no byte 0.
pub c_str-topics : c_str topics ≡ topics
unfolding c_str
c_str-topics = refl

c_str-next_id : c_str next_id ≡ next_id
unfolding c_str
c_str-next_id = refl

module _ (redis : Redis) (laws : Laws redis) where
  open redis use {Server, command}

  -- The score of a topic, up to its first byte 0, and the counter: what the clients work with.
  abbrev pub channel_of : Server → String → Option ℕ
  channel_of s t = laws.score s topics (c_str t)

  abbrev pub last_id : Server → ℕ
  last_id s = laws.counter s next_id

  -- The topics are a sorted set, if anything, whose scores are small enough to be read, and the counter a number.
  pub record IsReadable (s : Server) : Type 0 where
    pub sorted : laws.IsSorted s topics
    pub counting : laws.IsCounter s next_id
    pub small : (t : String) (n : ℕ) → channel_of s t ≡ some n → n < max_channel

  -- What the reply of a sorted set is read as.
  scored_lem :
      (s : Server) (t : String)
      → IsReadable s
      → scored redis (score_reply (channel_of s t), s) ≡ some (channel_of s t, s)
  unfolding scored
  scored_lem s t h = elim (Option-cases (channel_of s t)) [
    | inl e ↦ rw (e, scored)
    | inr (n, e) ↦ rw (e, scored, c_str-to_string n, stoi-to_string n (h.small t n e))
  ]

  scored_error : (m : String) (r : Reply × Server) → r.0 ≡ error m → scored redis r ≡ none
  unfolding scored
  scored_error m (reply, s) e = rw e refl

  abbrev pub zscore_words : String → List String
  zscore_words t = "ZSCORE" ∷ topics ∷ c_str t ∷ []

  pub zscore_lem :
      (s : Server) (t : String)
      → laws.IsServing s (zscore_words t)
      → IsReadable s
      → zscore redis s topics t ≡ some (channel_of s t, s)
  unfolding zscore
  zscore_lem s t serving h =
      rw (c_str-topics, laws.zscore_serves s topics (c_str t) serving h.sorted) (scored_lem s t h)

  -- An error ends the program; otherwise the score is read.
  pub zscore_or :
      (s : Server) (t : String)
      → IsReadable s
      → (zscore redis s topics t ≡ some (channel_of s t, s)) ⊎ (zscore redis s topics t ≡ none)
  unfolding zscore
  zscore_or s t h = elim (laws.zscore_reply s topics (c_str t) h.sorted) [
    | inl e ↦ inl (rw (c_str-topics, e) (scored_lem s t h))
    | inr (m, e) ↦ inr (rw c_str-topics (scored_error m (command s _) e))
  ]

  abbrev pub incr_words : List String
  incr_words = "INCR" ∷ next_id ∷ []

  abbrev pub zadd_words : String → ℕ → List String
  zadd_words t n = "ZADD" ∷ topics ∷ "NX" ∷ to_string n ∷ c_str t ∷ []

  abbrev pub after_incr : Server → Server
  after_incr s = (command s incr_words).1

  abbrev pub after_zadd : Server → String → ℕ → Server
  after_zadd s t n = (command s (zadd_words t n)).1

  -- The command succeeded.
  abbrev pub Drew : Server → ℕ → Type 0
  Drew s n = (command s incr_words).0 ≡ integer n

  abbrev pub Offered : Server → String → ℕ → Type 0
  Offered s t n = (m : ℕ) × ((command s (zadd_words t n)).0 ≡ integer m)

  -- A reply that is a number is read as it, and another one ends the program.
  integer_reply_of :
      (n : ℕ) (r : Reply × Server) → r.0 ≡ integer n → integer_reply redis r ≡ some (n, r.1)
  unfolding integer_reply
  integer_reply_of n (reply, s) e = rw e refl

  integer_reply-cases :
      (r : Reply × Server) → ((n : ℕ) × (r.0 ≡ integer n)) ⊎ (integer_reply redis r ≡ none)
  unfolding integer_reply
  integer_reply-cases (integer n, s) = inl (n, refl)
  integer_reply-cases (status t, s) = inr refl
  integer_reply-cases (string t, s) = inr refl
  integer_reply-cases (nil, s) = inr refl
  integer_reply-cases (error t, s) = inr refl

  -- The number that is drawn.
  pub drawn_lem :
      (s : Server) (n : ℕ)
      → IsReadable s
      → suc (last_id s) < max_channel
      → Drew s n
      → n ≡ suc (last_id s)
  drawn_lem s n h room e = laws.incr_reply s next_id n e h.counting ∙ mod-eq_of_lt (omega arith)

  pub incr_lem :
      (s : Server) (n : ℕ)
      → IsReadable s
      → suc (last_id s) < max_channel
      → Drew s n
      → incr redis s next_id ≡ some (suc (last_id s), after_incr s)
  unfolding incr
  incr_lem s n h room e =
      let q = drawn_lem s n h room e in
      let m : n % 4294967296 ≡ n = mod-eq_of_lt (omega arith) in
      rw (c_str-next_id, integer_reply_of n (command s incr_words) e, m) (rw q refl)

  incr-cases : (s : Server) → ((n : ℕ) × Drew s n) ⊎ (incr redis s next_id ≡ none)
  unfolding incr
  incr-cases s = elim (integer_reply-cases (command s incr_words)) [
    | inl (n, e) ↦ inl (n, e)
    | inr e ↦ inr (rw (c_str-next_id, e) refl)
  ]

  pub zadd_lem :
      (s : Server) (t : String) (n : ℕ)
      → Offered s t n
      → (b : Bool) × (zadd redis s nx topics t n ≡ some (b, after_zadd s t n))
  unfolding zadd
  zadd_lem s t n (m, e) =
      (m == 1, rw (c_str-topics, integer_reply_of m (command s (zadd_words t n)) e) refl)

  zadd-cases :
      (s : Server) (t : String) (n : ℕ) → Offered s t n ⊎ (zadd redis s nx topics t n ≡ none)
  unfolding zadd
  zadd-cases s t n = elim (integer_reply-cases (command s (zadd_words t n))) [
    | inl (m, e) ↦ inl (m, e)
    | inr e ↦ inr (rw (c_str-topics, e) refl)
  ]

  -- What the next command of a client does, if it is not an error.
  pub data Effect (s : Server) (c : Client) (c' : Client) (s' : Server) : Type 0 where
    saw : c.phase ≡ ready → s' ≡ s → c' ≡ found c (channel_of s c.topic) missed → Effect s c c' s'
    drew :
        (n : ℕ)
        → Drew s n
        → c.phase ≡ missed
        → s' ≡ after_incr s
        → c' ≡ record c { phase = numbered (suc (last_id s)) }
        → Effect s c c' s'
    offered :
        (n : ℕ)
        → Offered s c.topic n
        → c.phase ≡ numbered n
        → s' ≡ after_zadd s c.topic n
        → c' ≡ record c { phase = added }
        → Effect s c c' s'
    learned :
        (n : ℕ)
        → c.phase ≡ added
        → s' ≡ s
        → channel_of s c.topic ≡ some n
        → c' ≡ record c { phase = done n }
        → Effect s c c' s'

  same_step :
      {c c' : Client} {s s' : Server}
      → ◌≡◌ {A = Option (Client × Server)} (some (c, s)) (some (c', s'))
      → (c' ≡ c) × (s' ≡ s)
  same_step e = let q = some-injective _ _ e in (ap (λ r. r.0) (sym q), ap (λ r. r.1) (sym q))

  pub client_step-Effect :
      (s : Server) (t : String) (p : Phase) {c' : Client} {s' : Server}
      → IsReadable s
      → suc (last_id s) < max_channel
      → client_step redis s (record { topic = t; phase = p }) ≡ some (c', s')
      → Effect s (record { topic = t; phase = p }) c' s'
  unfolding client_step
  client_step-Effect s t ready h room e = elim (zscore_or s t h) [
    | inl z ↦ let q = same_step (rw z at e) in saw refl q.1 q.0
    | inr z ↦ absurd (none-some (rw z at e))
  ]
  client_step-Effect s t missed h room e = elim (incr-cases s) [
    | inl (n, d) ↦ let q = same_step (rw (incr_lem s n h room d) at e) in drew n d refl q.1 q.0
    | inr z ↦ absurd (none-some (rw z at e))
  ]
  client_step-Effect s t (numbered n) h room e = elim (zadd-cases s t n) [
    | inl o ↦
        let (b, f) = zadd_lem s t n o in let q = same_step (rw f at e) in offered n o refl q.1 q.0
    | inr z ↦ absurd (none-some (rw z at e))
  ]
  client_step-Effect s t added h room e = elim (zscore_or s t h) [
    | inl z ↦ elim (Option-cases (channel_of s t)) [
      | inl n ↦ absurd (none-some (rw (z, n) at e))
      | inr (n, f) ↦ let q = same_step (rw (z, f) at e) in learned n refl q.1 f q.0
    ]
    | inr z ↦ absurd (none-some (rw z at e))
  ]
  client_step-Effect s t (done n) h room e = absurd (none-some e)
