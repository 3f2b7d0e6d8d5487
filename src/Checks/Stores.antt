-- ===== src/Checks/Stores.antt =====
-- A small server that keeps the laws of Redis, with errors while it loads its data and when a counter overflows, and two nodes that
-- advertise at the same time.
use mathlib.Core.Logic.{◌≢◌}
use mathlib.Core.Path.{subst}
use native.Mathlib.Nat.{mod-eq_of_lt}
use text.Mathlib.Text.{◌==◌ as str_eq}
use text.Mathlib.TextEquality.{eq_iff}
use text.Mathlib.TextPositions.{eq_refl}
use r2dtu_attention.Common.{
  ℕ, zero, suc, ◌≤◌, ◌<◌, ◌%◌, ◌≡◌, ◌↔◌, ◌⊎◌, refl, sym, ap, ◌∙◌, Bool, true, false, ◌&&◌, ltb,
  lt→ltb, ltb→lt, Option, none, some, String, List, [], ◌∷◌, if◌then◌else◌, get_elem?, arith,
  Bool-cases, inl, inr,
}
use r2dtu_attention.Common.Texts.{to_string, lookup_name, c_str}
use r2dtu_attention.Common.Decimals.{leading, leading-to_string, stoi}
use r2dtu_attention.Store.Redis.{
  Redis, Laws, Reply, status, integer, error, score_reply, text_reply, score_or, always,
  set as store, get,
}
use r2dtu_attention.Store.Channels.{
  topics, next_id, Phase, ready, missed, numbered, added, done, Client, channel_id, client_step,
}
use r2dtu_attention.Store.Agreement.{System, sends, Reach, here, next, IsStore}
use r2dtu_attention.Store.Nodes.{IsStart, channels-agree}
use r2dtu_attention.Store.Advertise.{Advertised, channel_id_lem}
use r2dtu_attention.Store.Values.{after_set, get-set}
use r2dtu_attention.Topics.{Node, advertise}
use r2dtu_attention.Topics.Again.{advertise-again}

record Toy : Type 0 where
  scores : String → String → Option ℕ
  counters : String → ℕ
  values : String → Option String
  is_loading : Bool

abbrev toy_incr : Toy → String → Toy
toy_incr s k = record s { counters = λ j. if str_eq j k then suc (s.counters j) else s.counters j }

abbrev toy_zadd : Toy → String → ℕ → String → Toy
toy_zadd s k n e = record s {
  scores = λ j m. if str_eq j k && str_eq m e then score_or (s.scores j m) n else s.scores j m;
}

abbrev toy_set : Toy → String → String → Toy
toy_set s k v = record s { values = λ j. if str_eq j k then some v else s.values j }

abbrev max_integer : ℕ
max_integer = 9223372036854775807

abbrev toy_run : Toy → List String → Reply × Toy
toy_run s (w ∷ k ∷ []) =
    if str_eq w "INCR"
    then (if ltb (s.counters k) max_integer
        then (integer (suc (s.counters k)), toy_incr s k)
        else (error "ERR increment or decrement would overflow", s))
    else if str_eq w "GET"
    then (text_reply (s.values k), s)
    else (error "ERR", s)
toy_run s (w ∷ k ∷ e ∷ []) =
    if str_eq w "ZSCORE"
    then (score_reply (s.scores k e), s)
    else if str_eq w "SET"
    then (status "OK", toy_set s k e)
    else (error "ERR", s)
toy_run s (w ∷ k ∷ mode ∷ n ∷ e ∷ []) =
    if str_eq w "ZADD" && str_eq mode "NX"
    then (integer 1, toy_zadd s k (leading 0 n) e)
    else (error "ERR", s)
toy_run s _ = (error "ERR", s)

abbrev toy_command : Toy → List String → Reply × Toy
toy_command s words = if s.is_loading then (error "LOADING", s) else toy_run s words

abbrev toy : Redis
toy = record { Server = Toy; command = toy_command }

ne_false : (a b : String) → a ≢ b → str_eq b a ≡ false
ne_false a b h = elim (Bool-cases (str_eq b a)) [
  | inl y ↦ absurd (h (sym ((eq_iff b a).0 y)))
  | inr n ↦ n
]

-- A command that succeeds was not sent while the server loads.
not_loading :
    (s : Toy) (words : List String) (r : Reply)
    → r ≢ error "LOADING"
    → (toy_command s words).0 ≡ r
    → s.is_loading ≡ false
not_loading s words r ne e = elim (Bool-cases s.is_loading) [
  | inl y ↦ absurd (ne (sym e ∙ rw y refl))
  | inr n ↦ n
]

integer-ne : (n : ℕ) (t : String) → integer n ≢ error t
integer-ne n t e = cc

overflow_reply :
    (s : Toy) (k : String)
    → s.is_loading ≡ false
    → ltb (s.counters k) max_integer ≡ false
    → (toy_command s ("INCR" ∷ k ∷ [])).0 ≡ error "ERR increment or decrement would overflow"
overflow_reply s k off full = rw (off, full) refl

-- The counter before an INCR that succeeds.
below_max :
    (s : Toy) (k : String) (n : ℕ)
    → (toy_command s ("INCR" ∷ k ∷ [])).0 ≡ integer n
    → (s.is_loading ≡ false) × (ltb (s.counters k) max_integer ≡ true)
below_max s k n e =
    let off = not_loading s ("INCR" ∷ k ∷ []) (integer n) (integer-ne n _) e in
    (
      off,
      elim (Bool-cases (ltb (s.counters k) max_integer)) [
        | inl y ↦ y
        | inr full ↦ absurd (integer-ne n _ (sym e ∙ overflow_reply s k off full))
      ],
    )

-- The laws, of this server.
module _ (s : Toy) where
  zscore_replies :
      (k e : String)
      → (toy_command s ("ZSCORE" ∷ k ∷ e ∷ []) ≡ (score_reply (s.scores k e), s))
        ⊎ (t : String) × ((toy_command s ("ZSCORE" ∷ k ∷ e ∷ [])).0 ≡ error t)
  zscore_replies k e = elim (Bool-cases s.is_loading) [
    | inl y ↦ inr ("LOADING", rw y refl)
    | inr n ↦ inl (rw n refl)
  ]

  incr_answers :
      (k : String)
      → s.is_loading ≡ false
      → ltb (s.counters k) max_integer ≡ true
      → (toy_command s ("INCR" ∷ k ∷ [])).0 ≡ integer (suc (s.counters k))
  incr_answers k off room = rw (off, room) refl

  incr_replies :
      (k : String) (n : ℕ)
      → (toy_command s ("INCR" ∷ k ∷ [])).0 ≡ integer n
      → (n ≡ suc (s.counters k)) × ((toy_command s ("INCR" ∷ k ∷ [])).1 ≡ toy_incr s k)
  incr_replies k n e =
      let (off, room) = below_max s k n e in
      (integer_eq (sym e ∙ incr_answers k off room), rw (off, room) refl)
    where
      integer_eq : {a b : ℕ} → integer a ≡ integer b → a ≡ b
      integer_eq h = cc

  zadd_state :
      (k e : String) (n m : ℕ)
      → (toy_command s ("ZADD" ∷ k ∷ "NX" ∷ to_string n ∷ e ∷ [])).0 ≡ integer m
      → (toy_command s ("ZADD" ∷ k ∷ "NX" ∷ to_string n ∷ e ∷ [])).1 ≡ toy_zadd s k n e
  zadd_state k e n m h =
      let off =
        not_loading s ("ZADD" ∷ k ∷ "NX" ∷ to_string n ∷ e ∷ []) (integer m) (integer-ne m _) h in
      rw (off, leading-to_string n) refl

  set_state :
      (k v : String)
      → (toy_command s ("SET" ∷ k ∷ v ∷ [])).0 ≡ status "OK"
      → (toy_command s ("SET" ∷ k ∷ v ∷ [])).1 ≡ toy_set s k v
  set_state k v h =
      let off = not_loading s ("SET" ∷ k ∷ v ∷ []) (status "OK") (λ e. cc) h in rw off refl

below :
    (s : Toy) (k : String)
    → s.counters k ≤ max_integer
    → s.counters k ≢ max_integer
    → ltb (s.counters k) max_integer ≡ true
below s k h ne = lt→ltb _ _ (lt_of_ne (s.counters k) max_integer h ne)
  where
    lt_of_ne : (a b : ℕ) → a ≤ b → a ≢ b → a < b
    lt_of_ne a b h ne = omega arith

drawn_number :
    (s : Toy) (k : String) (n : ℕ)
    → (toy_command s ("INCR" ∷ k ∷ [])).0 ≡ integer n
    → s.counters k ≤ max_integer
    → n ≡ suc (s.counters k) % 18446744073709551616
drawn_number s k n e h = (incr_replies s k n e).0 ∙ sym (mod-eq_of_lt (omega (arith, h)))

abbrev toy_laws : Laws toy
toy_laws = record {
  IsServing = λ s words. s.is_loading ≡ false;
  IsSorted = λ s k. Unit {0};
  IsCounter = λ s k. s.counters k ≤ max_integer;
  IsText = λ s k. Unit {0};
  score = λ s. s.scores;
  counter = λ s. s.counters;
  value = λ s. s.values;
  zscore_reply = λ s k e h. zscore_replies s k e;
  zscore_serves = λ s k e off h. rw off refl;
  incr_reply = λ s k n e h. drawn_number s k n e h;
  incr_serves = λ s k off h ne. (suc (s.counters k), incr_answers s k off (below s k h ne));
  counter-incr = λ s k n e h.
      ap (λ (t : Toy). t.counters k) (incr_replies s k n e).1
      ∙ rw (eq_refl k) (sym (incr_replies s k n e).0);
  score-incr = λ s j k e n h ne sorted. ap (λ (t : Toy). t.scores k e) (incr_replies s j n h).1;
  IsSorted-incr = λ s j k n e ne h. tt;
  IsCounter-incr = λ s k n h e.
      subst (λ (t : Toy). t.counters k ≤ max_integer) (sym (incr_replies s k n e).1)
        (rw (eq_refl k) (omega (arith, ltb→lt _ _ (below_max s k n e).1)));
  zadd_serves = λ s k e n off h le. (1, rw off refl);
  score-zadd_self = λ s k e n m h sorted le.
      ap (λ (t : Toy). t.scores k e) (zadd_state s k e n m h) ∙ rw (eq_refl k, eq_refl e) refl;
  score-zadd_ne = λ s k e other n m h sorted ne.
      ap (λ (t : Toy). t.scores k other) (zadd_state s k e n m h)
      ∙ rw (eq_refl k, ne_false e other ne) refl;
  IsSorted-zadd = λ s k e n m h sorted le. tt;
  counter-zadd = λ s k e j n m h ne c. ap (λ (t : Toy). t.counters j) (zadd_state s k e n m h);
  IsCounter-zadd = λ s k e j n m h ne c.
      subst (λ (t : Toy). t.counters j ≤ max_integer) (sym (zadd_state s k e n m h)) c;
  set_serves = λ s k v off. rw off refl;
  value-set_self =
      λ s k v h. ap (λ (t : Toy). t.values k) (set_state s k v h) ∙ rw (eq_refl k) refl;
  value-set_ne = λ s k j v h ne text.
      ap (λ (t : Toy). t.values j) (set_state s k v h) ∙ rw (ne_false k j ne) refl;
  IsText-set_self = λ s k v h. tt;
  IsText-set_ne = λ s k j v h ne text. tt;
  get_serves = λ s k off h. rw off refl;
}

-- A server on which nothing is stored.
abbrev new_server : Toy
new_server = record {
  scores = λ k e. none;
  counters = λ k. 0;
  values = λ k. none;
  is_loading = false;
}

new_server-IsStore : IsStore toy toy_laws new_server
new_server-IsStore = record {
  sorted = tt;
  counting = omega arith;
  bounded = λ t n e. cc;
  single = λ t u n e f. cc;
}

-- The client of the topic in a phase.
abbrev at : Phase → Client
at p = record { topic = "tts_say"; phase = p }

-- Two nodes that want the topic at once.
abbrev pair_of : Toy → Phase → Phase → System toy toy_laws
pair_of s p q = record { server = s; clients = at p ∷ at q ∷ [] }

abbrev drawn : Toy
drawn = toy_incr (toy_incr new_server next_id) next_id

abbrev offered_once : Toy
offered_once = toy_zadd drawn topics 2 "tts_say"

abbrev offered_twice : Toy
offered_twice = toy_zadd offered_once topics 1 "tts_say"

-- Both find nothing, both draw a number, and the second is the first to offer its number.
interleaved :
    Reach toy toy_laws (pair_of new_server ready ready) (pair_of offered_twice (done 2) (done 2))
unfolding client_step to_string leading stoi
interleaved =
    next
      (next
        (next
          (next
            (next
              (next
                (next
                  (next here (
                    sends _ (pair_of new_server missed ready) 0 (at ready) (at missed) refl
                      (omega arith) refl refl))
                  (sends _ (pair_of new_server missed missed) 1 (at ready) (at missed) refl
                    (omega arith) refl refl))
                (sends _ (pair_of (toy_incr new_server next_id) (numbered 1) missed) 0 (at missed)
                  (at (numbered 1)) refl (omega arith) refl refl))
              (sends _ (pair_of drawn (numbered 1) (numbered 2)) 1 (at missed) (at (numbered 2))
                refl (omega arith) refl refl))
            (sends _ (pair_of offered_once (numbered 1) added) 1 (at (numbered 2)) (at added) refl
              (omega arith) refl refl))
          (sends _ (pair_of offered_twice added added) 0 (at (numbered 1)) (at added) refl
            (omega arith) refl refl))
        (sends _ (pair_of offered_twice (done 2) added) 0 (at added) (at (done 2)) refl
          (omega arith) refl refl))
      (sends _ (pair_of offered_twice (done 2) (done 2)) 1 (at added) (at (done 2)) refl
        (omega arith) refl refl)

both-IsStart : IsStart toy toy_laws (pair_of new_server ready ready)
both-IsStart = record { store = new_server-IsStore; small = omega arith; ready_all = ready_at }
  where
    ready_at :
        (i : ℕ) (c : Client) → get_elem? (at ready ∷ at ready ∷ []) i ≡ some c → c.phase ≡ ready
    ready_at zero c e = ground arith
    ready_at (suc zero) c e = ground arith
    ready_at (suc (suc i)) c e = cc

channels-agree_example : (◌≡◌ {A = ℕ} 2 2) ↔ (◌≡◌ {A = String} "tts_say" "tts_say")
unfolding c_str
channels-agree_example =
    channels-agree toy toy_laws (pair_of new_server ready ready)
      (pair_of offered_twice (done 2) (done 2)) 0 1 2 2 (at (done 2)) (at (done 2)) both-IsStart
      interleaved refl refl refl refl

channel_id_lem_example :
    (n : ℕ) × (s : Toy) × (channel_id toy new_server "speech" ≡ some (n, s))
    × Advertised toy toy_laws new_server "speech" n s
channel_id_lem_example =
    channel_id_lem toy toy_laws new_server "speech" new_server-IsStore (omega arith) refl refl refl
      refl

abbrev with_logs : Toy
with_logs = after_set toy toy_laws new_server "mockbot-dir" "logs\n"

get-set_example :
    (store toy new_server always "mockbot-dir" "logs\n" ≡ some (true, with_logs))
    × (get toy with_logs "mockbot-dir" ≡ some (some "logs\n", with_logs))
    × (get toy with_logs "network" ≡ some (none, with_logs))
unfolding c_str get
get-set_example =
    get-set toy toy_laws new_server "mockbot-dir" "logs\n" "network" none refl refl refl refl tt
      (λ e. cc (sym ((eq_iff "mockbot-dir" "network").1 e))) refl

abbrev no_topics : Node
no_topics = record {
  subscribers = [];
  publishers = [];
  by_topic = [];
  by_channel = [];
  network_subs = [];
}

abbrev with_speech : Node
with_speech = record {
  subscribers = [];
  publishers = record { subscribers = []; type_info = "SayMsg"; channel_id = 1 } ∷ [];
  by_topic = ("speech", 0) ∷ [];
  by_channel = (1, 0) ∷ [];
  network_subs = [];
}

abbrev numbered_speech : Toy
numbered_speech = toy_zadd (toy_incr new_server next_id) topics 1 "speech"

speech_advertised :
    advertise toy new_server no_topics "SayMsg" "speech" ≡ some ((0, with_speech), numbered_speech)
unfolding advertise lookup_name stoi to_string
speech_advertised = refl

advertise-again_example :
    (advertise toy new_server with_speech "SayMsg" "speech" ≡ some ((0, with_speech), new_server))
    × ((str_eq "SayMsg" "AnimationMsg" ≡ false)
        → advertise toy new_server with_speech "AnimationMsg" "speech" ≡ none)
advertise-again_example =
    advertise-again toy new_server numbered_speech new_server no_topics with_speech "SayMsg"
      "speech" "AnimationMsg" 0 speech_advertised
