-- ===== src/Store/Advertise.antt =====
-- One node advertises a topic and no other acts in between: Node::advertise with the store.
use mathlib.Core.Path.{◌≡◌, refl, ◌∙◌, sym, ap}
use mathlib.Core.Logic.{◌≢◌, inl, inr}
use mathlib.Core.Option.{some-injective}
use r2dtu_attention.Common.{ℕ, suc, ◌<◌, some, String, arith, Option-cases, none-some}
use r2dtu_attention.Common.Texts.{c_str}
use r2dtu_attention.Store.Redis.{Redis, Laws, score_or}
use r2dtu_attention.Store.Channels.{topics, next_id, channel_id, new_channel}
use r2dtu_attention.Store.Clients.{
  max_channel, channel_of, last_id, IsReadable, zscore_lem, incr_lem, zadd_lem, after_incr,
  after_zadd, zscore_words, incr_words, zadd_words,
}
use r2dtu_attention.Store.Agreement.{IsStore, IsStore-zadd, zadd_keeps, last-zadd, offered_self}
use r2dtu_attention.Store.Effects.{IsStore-incr, last-drawn, score-drawn}

module _ (redis : Redis) (laws : Laws redis) where
  open redis use {Server}

  store-IsReadable :
      (s : Server)
      → IsStore redis laws s
      → last_id redis laws s < max_channel
      → IsReadable redis laws s
  store-IsReadable s h small = record {
    sorted = h.sorted;
    counting = h.counting;
    small = λ t n e. let le = h.bounded t n e in omega arith;
  }

  -- What advertising a topic gives: its channel, and a store in which the channels that were there are unchanged.
  pub record Advertised (s : Server) (topic : String) (n : ℕ) (s' : Server) : Type 0 where
    pub channel : channel_of redis laws s' topic ≡ some n
    pub known : (m : ℕ) → channel_of redis laws s topic ≡ some m → (n ≡ m) × (s' ≡ s)
    pub kept :
        (t : String) (m : ℕ)
        → channel_of redis laws s t ≡ some m
        → channel_of redis laws s' t ≡ some m
    pub store : IsStore redis laws s'

  -- The store while a topic is new: a number is drawn, and then offered.
  abbrev pub while_drawn : Server → Server
  while_drawn s = after_incr redis laws s

  abbrev pub while_offered : Server → String → Server
  while_offered s topic = after_zadd redis laws (while_drawn s) topic (suc (last_id redis laws s))

  -- With room for one more number, channels that belong to one topic each, and a server that executes each of the commands it is sent,
  -- a topic that is advertised has a channel afterwards, which is returned: the one that it had, with nothing changed, or a
  -- new one. No abort happens.
  pub channel_id_lem :
      (s : Server) (topic : String)
      → IsStore redis laws s
      → suc (last_id redis laws s) < max_channel
      → laws.IsServing s (zscore_words redis laws topic)
      → laws.IsServing s (incr_words redis laws)
      → laws.IsServing (while_drawn s) (zadd_words redis laws topic (suc (last_id redis laws s)))
      → laws.IsServing (while_offered s topic) (zscore_words redis laws topic)
      → (n : ℕ) × (s' : Server) × (channel_id redis s topic ≡ some (n, s'))
        × Advertised s topic n s'
  unfolding channel_id new_channel
  channel_id_lem s topic h room serves serves₁ serves₂ serves₃ =
      let readable = store-IsReadable s h (omega arith) in
      elim (Option-cases (channel_of redis laws s topic)) [
        | inr (n, e) ↦ (
          n,
          s,
          rw (zscore_lem redis laws s topic serves readable, e),
          record {
            channel = e;
            known = λ m f. (some-injective n m (sym e ∙ f), refl);
            kept = λ t m f. f;
            store = h;
          },
        )
        | inl e ↦
            let n = suc (last_id redis laws s) in
            let s₂ = while_drawn s in
            let s₃ = while_offered s topic in
            let (k, drawn) = laws.incr_serves s next_id serves₁ h.counting (λ q. too_many q) in
            let last = last-drawn redis laws s k h room drawn in
            let same = score-drawn redis laws s k h room drawn in
            let h₂ = IsStore-incr redis laws s k h room drawn in
            let ok = laws.zadd_serves s₂ topics (c_str topic) n serves₂ h₂.sorted (omega arith) in
            let fresh : (u : String) → channel_of redis laws s₂ u ≢ some n =
              (λ u f. too_big u (sym (same u) ∙ f)) in
            let h₃ = IsStore-zadd redis laws s₂ topic n h₂ room ok fresh (omega (arith, last)) in
            let last' = last-zadd redis laws s₂ topic n h₂ room ok in
            let got : channel_of redis laws s₃ topic ≡ some n =
              offered_self redis laws s₂ topic n h₂ room ok
              ∙ ap (λ o. score_or o n) (same topic ∙ e) in
            let (b, added) = zadd_lem redis laws s₂ topic n ok in
            let readable₃ = store-IsReadable s₃ h₃ (omega (arith, last, last')) in
            (
              n,
              s₃,
              rw (
                zscore_lem redis laws s topic serves readable,
                e,
                incr_lem redis laws s k readable room drawn,
                added,
                zscore_lem redis laws s₃ topic serves₃ readable₃,
                got,
              ),
              record {
                channel = got;
                known = λ m f. absurd (none-some (sym e ∙ f));
                kept = λ t m f. zadd_keeps redis laws s₂ topic n h₂ room ok t m (same t ∙ f);
                store = h₃;
              },
            )
      ]
    where
      too_big : (u : String) → channel_of redis laws s u ≡ some (suc (last_id redis laws s)) → ⊥
      too_big u f = let le = h.bounded u (suc (last_id redis laws s)) f in omega arith

      too_many : last_id redis laws s ≡ 9223372036854775807 → ⊥
      too_many q = omega arith
