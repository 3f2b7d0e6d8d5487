-- ===== src/Store/Agreement.antt =====
-- All nodes get the same channel for a topic, and different topics get different channels.
use mathlib.Core.Path.{◌≡◌, ◌∙◌, sym, ap}
use mathlib.Core.Logic.{◌≢◌, ◌⊎◌, inl, inr}
use mathlib.Core.Option.{some-injective}
use text.Mathlib.Text.{◌==◌}
use text.Mathlib.TextEquality.{eq_iff}
use r2dtu_attention.Common.{
  ℕ, suc, ◌<◌, ◌≤◌, some, String, List, get_elem?, set, arith, Bool-cases, Option-cases, false,
}
use r2dtu_attention.Store.Redis.{Redis, Laws, score_or}
use r2dtu_attention.Store.Channels.{
  topics, next_id, Phase, ready, missed, numbered, added, done, Client, client_step,
}
use r2dtu_attention.Common.Texts.{c_str}
use r2dtu_attention.Store.Clients.{max_channel, channel_of, last_id, after_zadd, Offered}

-- The two keys of the program.
topics-ne-next_id : topics ≢ next_id
topics-ne-next_id e = cc (sym ((eq_iff topics next_id).1 e))

pub next_id-ne-topics : next_id ≢ topics
next_id-ne-topics e = topics-ne-next_id (sym e)

module _ (redis : Redis) (laws : Laws redis) where
  open redis use {Server}

  pub record System : Type 0 where
    pub server : Server
    pub clients : List Client

  -- One client sends its next command. Fewer than 2 ^ 31 - 1 numbers have been drawn.
  pub data Step : System → System → Type 0 where
    sends :
        (y z : System) (i : ℕ) (c c' : Client)
        → get_elem? y.clients i ≡ some c
        → suc (last_id redis laws y.server) < max_channel
        → client_step redis y.server c ≡ some (c', z.server)
        → z.clients ≡ set y.clients i c'
        → Step y z

  pub data Reach (y : System) : System → Type 0 where
    here : Reach y y
    next : {z w : System} → Reach y z → Step z w → Reach y w

  -- The topics are a sorted set and the counter a number, if they are there; the channels are at most the last number
  -- drawn, and belong to one topic, as far as the store sees it.
  pub record IsStore (s : Server) : Type 0 where
    pub sorted : laws.IsSorted s topics
    pub counting : laws.IsCounter s next_id
    pub bounded :
        (t : String) (n : ℕ) → channel_of redis laws s t ≡ some n → n ≤ last_id redis laws s
    pub single :
        (t u : String) (n : ℕ)
        → channel_of redis laws s t ≡ some n
        → channel_of redis laws s u ≡ some n
        → c_str t ≡ c_str u

  -- What a phase says of the store: a number that is offered is new, and a channel that was learned is the topic's.
  abbrev pub Holds : Server → String → Phase → Type 0
  Holds s t ready = Unit
  Holds s t missed = Unit
  Holds s t (numbered n) =
      (n ≤ last_id redis laws s) × ((u : String) → channel_of redis laws s u ≢ some n)
  Holds s t added = (n : ℕ) × (channel_of redis laws s t ≡ some n)
  Holds s t (done n) = channel_of redis laws s t ≡ some n

  pub record Inv (y : System) : Type 0 where
    pub store : IsStore y.server
    pub small : last_id redis laws y.server < max_channel
    pub each :
        (i : ℕ) (c : Client) → get_elem? y.clients i ≡ some c → Holds y.server c.topic c.phase
    pub apart :
        (i j n : ℕ) (c d : Client)
        → get_elem? y.clients i ≡ some c
        → get_elem? y.clients j ≡ some d
        → c.phase ≡ numbered n
        → d.phase ≡ numbered n
        → i ≡ j

  module _ (s : Server) (t : String) (n : ℕ) (store : IsStore s) (small : n < max_channel)
      (ok : Offered redis laws s t n) where
    abbrev pub offer : Server
    offer = after_zadd redis laws s t n

    -- The score of the topic after an offer, and those of other topics.
    pub offered_self : channel_of redis laws offer t ≡ score_or (channel_of redis laws s t) n
    offered_self = laws.score-zadd_self s topics (c_str t) n ok.0 ok.1 store.sorted (omega arith)

    offered_other :
        (u : String)
        → (c_str t == c_str u) ≡ false
        → channel_of redis laws offer u ≡ channel_of redis laws s u
    offered_other u ne =
        laws.score-zadd_ne s topics (c_str t) (c_str u) n ok.0 ok.1 store.sorted
          (λ e. cc (sym ((eq_iff (c_str t) (c_str u)).1 e) ∙ ne))

    -- Scores stay.
    pub zadd_keeps :
        (u : String) (m : ℕ)
        → channel_of redis laws s u ≡ some m
        → channel_of redis laws offer u ≡ some m
    zadd_keeps u m e = elim (Bool-cases (c_str t == c_str u)) [
      | inl y ↦
          let q = (eq_iff (c_str t) (c_str u)).0 y in
          ap (laws.score offer topics) (sym q)
          ∙ offered_self
          ∙ ap (λ o. score_or o n) (ap (laws.score s topics) q ∙ e)
      | inr other ↦ offered_other u other ∙ e
    ]

    pub zadd_origin :
        (u : String) (m : ℕ)
        → channel_of redis laws offer u ≡ some m
        → (channel_of redis laws s u ≡ some m) ⊎ (c_str u ≡ c_str t) × (n ≡ m)
    zadd_origin u m e = elim (Bool-cases (c_str t == c_str u)) [
      | inl y ↦
          let q = (eq_iff (c_str t) (c_str u)).0 y in
          let now = sym offered_self ∙ ap (laws.score offer topics) q ∙ e in
          elim (Option-cases (channel_of redis laws s t)) [
            | inl new ↦ inr (sym q, some-injective _ _ (sym (ap (λ o. score_or o n) new) ∙ now))
            | inr (k, old) ↦
                inl
                  (ap (laws.score s topics) (sym q) ∙ old ∙ sym (ap (λ o. score_or o n) old) ∙ now)
          ]
      | inr other ↦ inl (sym (offered_other u other) ∙ e)
    ]

    pub zadd_some : (k : ℕ) × (channel_of redis laws offer t ≡ some k)
    zadd_some = elim (Option-cases (channel_of redis laws s t)) [
      | inl new ↦ (n, offered_self ∙ ap (λ o. score_or o n) new)
      | inr (k, old) ↦ (k, offered_self ∙ ap (λ o. score_or o n) old)
    ]

    pub last-zadd : last_id redis laws offer ≡ last_id redis laws s
    last-zadd =
        laws.counter-zadd s topics (c_str t) next_id n ok.0 ok.1 topics-ne-next_id store.counting

    module _ (fresh : (u : String) → channel_of redis laws s u ≢ some n) where
      pub IsStore-zadd : n ≤ last_id redis laws s → IsStore offer
      IsStore-zadd le = record {
        sorted = laws.IsSorted-zadd s topics (c_str t) n ok.0 ok.1 store.sorted (omega arith);
        counting =
            laws.IsCounter-zadd s topics (c_str t) next_id n ok.0 ok.1 topics-ne-next_id
              store.counting;
        bounded = λ u m e. elim (zadd_origin u m e) [
          | inl old ↦ omega (arith, store.bounded u m old, last-zadd)
          | inr (q, new) ↦ omega (arith, last-zadd)
        ];
        single = λ u v m e f. elim (zadd_origin u m e) [
          | inl old ↦ elim (zadd_origin v m f) [
            | inl old' ↦ store.single u v m old old'
            | inr (q, new) ↦ absurd (fresh u (old ∙ ap some (sym new)))
          ]
          | inr (q, new) ↦ elim (zadd_origin v m f) [
            | inl old' ↦ absurd (fresh v (old' ∙ ap some (sym new)))
            | inr (q', new') ↦ q ∙ sym q'
          ]
        ];
      }

    -- What another client relies on survives the offer.
    pub Holds-zadd : (u : String) (p : Phase) → p ≢ numbered n → Holds s u p → Holds offer u p
    Holds-zadd u ready ne h = tt
    Holds-zadd u missed ne h = tt
    Holds-zadd u (numbered m) ne h = (
      omega (arith, h.0, last-zadd),
      λ v e. elim (zadd_origin v m e) [
        | inl old ↦ h.1 v old
        | inr (q, new) ↦ ne (ap numbered (sym new))
      ],
    )
    Holds-zadd u added ne h = (h.0, zadd_keeps u h.0 h.1)
    Holds-zadd u (done m) ne h = zadd_keeps u m h
