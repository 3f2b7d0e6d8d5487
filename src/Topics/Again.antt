-- ===== src/Topics/Again.antt =====
-- Node::advertise of a topic that the node knows.
use mathlib.Core.Option.{some-injective}
use mathlib.Core.Path.{subst}
use text.Mathlib.Text.{◌==◌ as str_eq}
use text.Mathlib.TextPositions.{eq_refl}
use text.Mathlib.TextEquality.{eq_iff}
use r2dtu_attention.Common.{
  ℕ, ◌≡◌, refl, sym, true, false, inl, inr, none, some, String, List, [], ◌∷◌, ◌++◌, length,
  get_elem?, get_elem?-length, none-some, Bool-cases, Option-cases,
}
use r2dtu_attention.Common.Texts.{lookup_name}
use r2dtu_attention.Store.Redis.{Redis}
use r2dtu_attention.Store.Channels.{channel_id}
use r2dtu_attention.Topics.{Publisher, Node, add_publisher, advertise}

lookup_name-append :
    (entries : List (String × ℕ)) (topic : String) (p : ℕ)
    → lookup_name entries topic ≡ none
    → lookup_name (entries ++ (topic, p) ∷ []) topic ≡ some p
unfolding lookup_name
lookup_name-append [] topic p e = rw (eq_refl topic) refl
lookup_name-append ((key, q) ∷ entries) topic p e = elim (Bool-cases (str_eq key topic)) [
  | inl y ↦ absurd (none-some (sym (rw y at e)))
  | inr other ↦ rw other (lookup_name-append entries topic p (rw other at e))
]

module _ (redis : Redis) where
  open redis use {Server}

  -- A topic of a node, with its publisher.
  abbrev pub Advertised : Node → String → String → ℕ → Type 0
  Advertised n type topic p =
      (lookup_name n.by_topic topic ≡ some p)
      × (publisher : Publisher) × (get_elem? n.publishers p ≡ some publisher)
      × (str_eq publisher.type_info type ≡ true)

  add_publisher-Advertised :
      (n : Node) (type topic : String) (id : ℕ)
      → lookup_name n.by_topic topic ≡ none
      → Advertised (add_publisher redis n type topic id).1 type topic (length n.publishers)
  unfolding add_publisher
  add_publisher-Advertised n type topic id unknown =
      let fresh_one : Publisher = record { subscribers = []; type_info = type; channel_id = id } in
      (
        lookup_name-append n.by_topic topic (length n.publishers) unknown,
        fresh_one,
        get_elem?-length n.publishers fresh_one,
        eq_refl type,
      )

  advertise-Advertised :
      (s s₁ : Server) (n n₁ : Node) (type topic : String) (p : ℕ)
      → advertise redis s n type topic ≡ some ((p, n₁), s₁)
      → Advertised n₁ type topic p
  unfolding advertise
  advertise-Advertised s s₁ n n₁ type topic p h =
      elim (Option-cases (lookup_name n.by_topic topic)) [
        | inl unknown ↦ elim (Option-cases (channel_id redis s topic)) [
          | inl e ↦ absurd (none-some (rw (advertise, unknown, e) at h))
          | inr (r, e) ↦
              subst (λ x. Advertised x.0.1 type topic x.0.0)
                (some-injective _ _ (rw (advertise, unknown, e) at h))
                (add_publisher-Advertised n type topic r.0 unknown)
        ]
        | inr (q, found) ↦ elim (Option-cases (get_elem? n.publishers q)) [
          | inl e ↦ absurd (none-some (rw (advertise, found, e) at h))
          | inr (publisher, e) ↦ elim (Bool-cases (str_eq publisher.type_info type)) [
            | inl y ↦
                subst (λ x. Advertised x.0.1 type topic x.0.0)
                  (some-injective _ _ (rw (advertise, found, e, y) at h)) (found, publisher, e, y)
            | inr differs ↦ absurd (none-some (rw (advertise, found, e, differs) at h))
          ]
        ]
      ]

  -- Once a node has advertised a topic, it advertises it again without asking the store: for the same type it returns
  -- the publisher that it returned before and changes nothing, for another type it aborts.
  pub advertise-again :
      (s s₁ s₂ : Server) (n n₁ : Node) (type topic other : String) (p : ℕ)
      → advertise redis s n type topic ≡ some ((p, n₁), s₁)
      → (advertise redis s₂ n₁ type topic ≡ some ((p, n₁), s₂))
        × (str_eq type other ≡ false → advertise redis s₂ n₁ other topic ≡ none)
  unfolding advertise
  advertise-again s s₁ s₂ n n₁ type topic other p h =
      let (found, publisher, e, y) = advertise-Advertised s s₁ n n₁ type topic p h in
      let same : publisher.type_info ≡ type = (eq_iff publisher.type_info type).0 y in
      (rw (advertise, found, e, y) refl, λ differs. rw (advertise, found, e, same, differs) refl)
