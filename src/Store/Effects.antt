-- ===== src/Store/Effects.antt =====
-- What one command of a client does keeps the invariant of the channels.
use mathlib.Core.Path.{◌≡◌, ◌∙◌, sym, ap, subst}
use mathlib.Core.Logic.{◌≢◌, ◌⊎◌, inl, inr}
use mathlib.Core.Option.{some-injective}
use native.Mathlib.Decide.{ℕ_discrete}
use native.Mathlib.Nat.{mod-eq_of_lt}
use r2dtu_attention.Common.{
  ℕ, suc, ◌<◌, ◌≤◌, Option, none, some, String, List, get_elem?, length, set, arith, Option-cases,
  get_elem?-set_self, get_elem?-set_ne, lt-length_of_get_elem?,
}
use r2dtu_attention.Store.Redis.{Redis, Laws}
use r2dtu_attention.Store.Channels.{
  topics, next_id, Phase, ready, missed, numbered, added, done, Client, found,
}
use r2dtu_attention.Store.Clients.{
  max_channel, channel_of, last_id, Effect, saw, drew, offered, learned, after_incr, after_zadd,
  Drew,
}
use r2dtu_attention.Common.Texts.{c_str}
use r2dtu_attention.Store.Agreement.{
  System, IsStore, Holds, Inv, IsStore-zadd, Holds-zadd, zadd_some, last-zadd, next_id-ne-topics,
}

-- An element of a list after a write.
lookup-set {ℓ} :
    {A : Type ℓ} (xs : List A) (i k : ℕ) (v a : A)
    → i < length xs
    → get_elem? (set xs i v) k ≡ some a
    → ((k ≡ i) × (a ≡ v)) ⊎ ((k ≢ i) × (get_elem? xs k ≡ some a))
lookup-set xs i k v a h e = elim (ℕ_discrete k i) [
  | yes q ↦
      inl (
        q,
        some-injective a v (sym e ∙ ap (get_elem? (set xs i v)) q ∙ get_elem?-set_self xs i v h),
      )
  | no q ↦ inr (q, sym (get_elem?-set_ne xs i k v (λ r. q (sym r))) ∙ e)
]

module _ (redis : Redis) (laws : Laws redis) where
  open redis use {Server}

  -- A number is drawn: nothing else changes.
  module _ (s : Server) (n : ℕ) (h : IsStore redis laws s)
      (room : suc (last_id redis laws s) < max_channel) (ok : Drew redis laws s n) where
    pub score-drawn :
        (t : String) → channel_of redis laws (after_incr redis laws s) t ≡ channel_of redis laws s t
    score-drawn t = laws.score-incr s next_id topics (c_str t) n ok next_id-ne-topics h.sorted

    pub last-drawn : last_id redis laws (after_incr redis laws s) ≡ suc (last_id redis laws s)
    last-drawn =
        laws.counter-incr s next_id n ok h.counting
        ∙ laws.incr_reply s next_id n ok h.counting
        ∙ mod-eq_of_lt (omega arith)

    pub IsStore-incr : IsStore redis laws (after_incr redis laws s)
    IsStore-incr = record {
      sorted = laws.IsSorted-incr s next_id topics n ok next_id-ne-topics h.sorted;
      counting = laws.IsCounter-incr s next_id n h.counting ok;
      bounded =
          λ t m e. let le = h.bounded t m (sym (score-drawn t) ∙ e) in omega (arith, last-drawn);
      single = λ t u m e f. h.single t u m (sym (score-drawn t) ∙ e) (sym (score-drawn u) ∙ f);
    }

    Holds-incr :
        (t : String) (p : Phase)
        → Holds redis laws s t p
        → Holds redis laws (after_incr redis laws s) t p
    Holds-incr t ready k = tt
    Holds-incr t missed k = tt
    Holds-incr t (numbered m) k =
        (omega (arith, last-drawn, k.0), λ u e. k.1 u (sym (score-drawn u) ∙ e))
    Holds-incr t added k = (k.0, score-drawn t ∙ k.1)
    Holds-incr t (done m) k = score-drawn t ∙ k

  -- A step of one client, in parts: the store, what the others rely on, and what the client has then.
  Inv-of :
      (y z : System redis laws) (i : ℕ) (c c' : Client)
      → Inv redis laws y
      → get_elem? y.clients i ≡ some c
      → z.clients ≡ set y.clients i c'
      → IsStore redis laws z.server
      → last_id redis laws z.server < max_channel
      → ((j : ℕ) (d : Client)
          → j ≢ i
          → get_elem? y.clients j ≡ some d
          → Holds redis laws z.server d.topic d.phase)
      → Holds redis laws z.server c'.topic c'.phase
      → ((j n : ℕ) (d : Client)
          → j ≢ i
          → get_elem? y.clients j ≡ some d
          → c'.phase ≡ numbered n
          → d.phase ≢ numbered n)
      → Inv redis laws z
  Inv-of y z i c c' v e q store small others own new = record {
    store = store;
    small = small;
    each = λ j d f.
        elim (lookup-set y.clients i j c' d inside (sym (ap (λ l. get_elem? l j) q) ∙ f)) [
          | inl (r, is) ↦ subst (λ x. Holds redis laws z.server x.topic x.phase) (sym is) own
          | inr (r, old) ↦ others j d r old
        ];
    apart = λ j k n d f ej ek pj pk.
        elim (lookup-set y.clients i j c' d inside (sym (ap (λ l. get_elem? l j) q) ∙ ej)) [
          | inl (r, is) ↦
              elim (lookup-set y.clients i k c' f inside (sym (ap (λ l. get_elem? l k) q) ∙ ek)) [
                | inl (r', is') ↦ r ∙ sym r'
                | inr (r', old') ↦ absurd (new k n f r' old' (ap (λ x. x.phase) (sym is) ∙ pj) pk)
              ]
          | inr (r, old) ↦
              elim (lookup-set y.clients i k c' f inside (sym (ap (λ l. get_elem? l k) q) ∙ ek)) [
                | inl (r', is') ↦ absurd (new j n d r old (ap (λ x. x.phase) (sym is') ∙ pk) pj)
                | inr (r', old') ↦ v.apart j k n d f old old' pj pk
              ]
        ];
  }
    where
      inside : i < length y.clients
      inside = lt-length_of_get_elem? y.clients i e

  -- What a client has when it has been told the score.
  found-Holds :
      (s : Server) (c : Client)
      → Holds redis laws s
          (found c (channel_of redis laws s c.topic) missed).topic
          (found c (channel_of redis laws s c.topic) missed).phase
  found-Holds s c = elim (Option-cases (channel_of redis laws s c.topic)) [
    | inl e ↦ rw e tt
    | inr (n, e) ↦ rw e e
  ]

  found-ne : (c : Client) (o : Option ℕ) (n : ℕ) → (found c o missed).phase ≢ numbered n
  found-ne c none n e = cc
  found-ne c (some m) n e = cc

  -- What the next command of a client does keeps the invariant.
  pub Effect-Inv :
      (y z : System redis laws) (i : ℕ) (c c' : Client)
      → Inv redis laws y
      → get_elem? y.clients i ≡ some c
      → z.clients ≡ set y.clients i c'
      → suc (last_id redis laws y.server) < max_channel
      → Effect redis laws y.server c c' z.server
      → Inv redis laws z
  Effect-Inv y z i c c' v e q room (saw p same is) =
      let s = y.server in
      Inv-of y z i c c' v e q (subst (IsStore redis laws) (sym same) v.store) (rw same v.small)
        (λ j d r f. subst (λ s'. Holds redis laws s' d.topic d.phase) (sym same) (v.each j d f))
        (subst (λ s'. Holds redis laws s' c'.topic c'.phase) (sym same)
          (subst (λ x. Holds redis laws s x.topic x.phase) (sym is) (found-Holds s c)))
        (λ j n d r f pn.
          absurd (found-ne c (channel_of redis laws s c.topic) n (ap (λ x. x.phase) (sym is) ∙ pn)))
  Effect-Inv y z i c c' v e q room (drew number ok p same is) =
      let s = y.server in
      let last = last-drawn s number v.store room ok in
      let after = after_incr redis laws s in
      Inv-of y z i c c' v e q
        (subst (IsStore redis laws) (sym same) (IsStore-incr s number v.store room ok))
        (rw (same, last) room)
        (λ j d r f.
          subst (λ s'. Holds redis laws s' d.topic d.phase) (sym same)
            (Holds-incr s number v.store room ok d.topic d.phase (v.each j d f)))
        (subst (λ s'. Holds redis laws s' c'.topic c'.phase) (sym same)
          (subst (λ x. Holds redis laws after x.topic x.phase) (sym is)
            (
              omega (arith, last),
              λ u f.
                  let le =
                    v.store.bounded u (suc (last_id redis laws s))
                      (sym (score-drawn s number v.store room ok u) ∙ f) in
                  omega arith,
            )))
        (λ j n d r f pn pd.
          let m : numbered (suc (last_id redis laws s)) ≡ numbered n =
            ap (λ x. x.phase) (sym is) ∙ pn in
          let held = subst (Holds redis laws s d.topic) pd (v.each j d f) in
          too_big s n (numbered_inj m) held.0)
    where
      numbered_inj : {a b : ℕ} → numbered a ≡ numbered b → a ≡ b
      numbered_inj h = cc

      too_big : (s : Server) (n : ℕ) → suc (last_id redis laws s) ≡ n → n ≤ last_id redis laws s → ⊥
      too_big s n h k = omega arith
  Effect-Inv y z i c c' v e q room (offered n ok p same is) =
      let s = y.server in
      let own = subst (Holds redis laws s c.topic) p (v.each i c e) in
      let after = after_zadd redis laws s c.topic n in
      let few : n < max_channel = omega (arith, own.0, v.small) in
      let last = last-zadd redis laws s c.topic n v.store few ok in
      Inv-of y z i c c' v e q
        (subst (IsStore redis laws) (sym same)
          (IsStore-zadd redis laws s c.topic n v.store few ok own.1 own.0))
        (rw (same, last) v.small)
        (λ j d r f.
          subst (λ s'. Holds redis laws s' d.topic d.phase) (sym same)
            (Holds-zadd redis laws s c.topic n v.store few ok d.topic d.phase
              (λ pd. r (v.apart j i n d c f e pd p)) (v.each j d f)))
        (subst (λ s'. Holds redis laws s' c'.topic c'.phase) (sym same)
          (subst (λ x. Holds redis laws after x.topic x.phase) (sym is)
            (zadd_some redis laws s c.topic n v.store few ok)))
        (λ j m d r f pn. absurd (added_ne m (ap (λ x. x.phase) (sym is) ∙ pn)))
    where
      added_ne : (m : ℕ) → added ≢ numbered m
      added_ne m h = cc
  Effect-Inv y z i c c' v e q room (learned n p same got is) =
      let s = y.server in
      Inv-of y z i c c' v e q (subst (IsStore redis laws) (sym same) v.store) (rw same v.small)
        (λ j d r f. subst (λ s'. Holds redis laws s' d.topic d.phase) (sym same) (v.each j d f))
        (subst (λ s'. Holds redis laws s' c'.topic c'.phase) (sym same)
          (subst (λ x. Holds redis laws s x.topic x.phase) (sym is) got))
        (λ j m d r f pn. absurd (done_ne n m (ap (λ x. x.phase) (sym is) ∙ pn)))
    where
      done_ne : (k m : ℕ) → done k ≢ numbered m
      done_ne k m h = cc
