-- ===== src/Buffers/Round.antt =====
-- A vector that is written and read going round at `cap`: what it holds from an index on.
use native.Mathlib.Nat.{mod-add-mod, mod-eq_of_lt, mod-eq-sub-mod}
use native.Mathlib.Decide.{dec_lt}
use mathlib.Core.Logic.{◌≢◌}
use r2dtu_attention.Common.{
  ℕ, suc, ◌+◌, ◌-◌, ◌%◌, ◌≤◌, ◌<◌, ◌≡◌, ◌⊎◌, inl, inr, refl, ap, ◌∙◌, sym, some, List, [], ◌∷◌,
  ◌++◌, arith, length, length-append, length-set, get_elem?, set, get_elem?-set_self,
  get_elem?-set_ne, get_elem?_append_cases, lt-length_of_get_elem?,
}

-- Where k steps from t end, going round at most once.
pub round-cases :
    {cap t : ℕ} (k : ℕ)
    → t < cap
    → k ≤ cap
    → ((t + k) % cap ≡ t + k) × (t + k < cap) ⊎ ((t + k) % cap ≡ t + k - cap) × (cap ≤ t + k)
round-cases {cap} {t} k ht hk = elim (dec_lt (t + k) cap) [
  | yes p ↦ inl (mod-eq_of_lt p, p)
  | no p ↦ inr (
    mod-eq-sub-mod {n = t + k} {m = cap} (omega arith)
        ∙ mod-eq_of_lt {n = t + k - cap} {m = cap} (omega arith),
    omega arith,
  )
]

-- Different numbers of steps, fewer than cap, end at different indices.
pub round-ne : {cap t : ℕ} (k n : ℕ) → t < cap → k < n → n < cap → (t + n) % cap ≢ (t + k) % cap
round-ne k n ht hk hn e = elim (round-cases k ht (omega arith)) [
  | inl p ↦ elim (round-cases n ht (omega arith)) [ inl q ↦ omega arith | inr q ↦ omega arith ]
  | inr p ↦ elim (round-cases n ht (omega arith)) [ inl q ↦ omega arith | inr q ↦ omega arith ]
]

pub round-lt : {cap t : ℕ} (k : ℕ) → t < cap → k ≤ cap → (t + k) % cap < cap
round-lt k ht hk = elim (round-cases k ht hk) [ inl p ↦ omega arith | inr p ↦ omega arith ]

pub round-zero : {cap t : ℕ} → t < cap → (t + 0) % cap ≡ t
round-zero {cap} {t} h =
    let e : t + 0 ≡ t = omega arith in mod-eq_of_lt {n = t + 0} {m = cap} (omega arith) ∙ e

pub round-suc : (cap t k : ℕ) → ((t + 1) % cap + k) % cap ≡ (t + suc k) % cap
round-suc cap t k = rw mod-add-mod (ap (λ n. n % cap) (omega arith))

module _ {ℓ} {V : Type ℓ} where
  -- The elements of xs stand in the vector from `tail` on, and `head` is the index after them.
  pub record Holds (buf : List V) (cap tail head : ℕ) (xs : List V) : Type ℓ where
    pub room : cap ≤ length buf
    pub tail_in : tail < cap
    pub fits : length xs < cap
    pub head_at : head ≡ (tail + length xs) % cap
    pub at : (k : ℕ) (a : V) → get_elem? xs k ≡ some a → get_elem? buf ((tail + k) % cap) ≡ some a

  pub Holds-nil :
      (buf : List V) (cap tail : ℕ) → cap ≤ length buf → tail < cap → Holds buf cap tail tail []
  Holds-nil buf cap tail h t = record {
    room = h;
    tail_in = t;
    fits = omega arith;
    head_at = sym (round-zero t);
    at = λ k a e. cc;
  }

  module _ {buf : List V} {cap tail head : ℕ} {xs : List V} (h : Holds buf cap tail head xs) where
    pub head-lt : head < cap
    head-lt = rw (h.head_at) (round-lt (length xs) h.tail_in (omega (arith, h.fits)))

    -- An element is written at the head, and the head moves on.
    pub Holds-put :
        (v : V)
        → length xs + 1 < cap
        → Holds (set buf head v) cap tail ((head + 1) % cap) (xs ++ v ∷ [])
    Holds-put v p = record {
      room = rw (length-set buf head v) h.room;
      tail_in = h.tail_in;
      fits = omega (arith, length-append xs (v ∷ []), p);
      head_at =
          ap (λ n. (n + 1) % cap) h.head_at
          ∙ round_one (length xs)
          ∙ ap (λ n. (tail + n) % cap)
              (let e : suc (length xs) ≡ length (xs ++ v ∷ []) =
                  omega (arith, length-append xs (v ∷ [])) in
                e);
      at = λ k a e. elim (get_elem?_append_cases xs v k a e) [
        | inl old ↦
            get_elem?-set_ne buf head ((tail + k) % cap) v (λ q.
              round-ne k (length xs) h.tail_in (lt-length_of_get_elem? xs k old) h.fits
                (sym h.head_at ∙ q))
            ∙ h.at k a old
        | inr (q, new) ↦
            rw (← q, ← h.head_at, ← new)
              (get_elem?-set_self buf head v (omega (arith, head-lt, h.room)))
      ];
    }
      where
        round_one : (n : ℕ) → ((tail + n) % cap + 1) % cap ≡ (tail + suc n) % cap
        round_one n = rw mod-add-mod (ap (λ m. m % cap) (omega arith))

  -- The element at the tail is taken, and the tail moves on.
  pub Holds-take :
      {buf : List V} {cap tail head : ℕ} {x : V} {xs : List V}
      → Holds buf cap tail head (x ∷ xs)
      → Holds buf cap ((tail + 1) % cap) head xs
  Holds-take {buf} {cap} {tail} {head} {x} {xs} h = record {
    room = h.room;
    tail_in = round-lt 1 h.tail_in (omega (arith, h.fits));
    fits = omega (arith, h.fits);
    head_at = h.head_at ∙ sym (round-suc cap tail (length xs));
    at = λ k a e. ap (λ n. get_elem? buf n) (round-suc cap tail k) ∙ h.at (suc k) a e;
  }

  -- The element that the tail stands at.
  pub Holds-first :
      {buf : List V} {cap tail head : ℕ} {x : V} {xs : List V}
      → Holds buf cap tail head (x ∷ xs)
      → get_elem? buf tail ≡ some x
  Holds-first {buf} {cap} {tail} {x = x} h =
      let z = round-zero h.tail_in in ap (λ n. get_elem? buf n) (sym z) ∙ h.at 0 x refl

  -- The cell before the tail may be overwritten.
  pub Holds-clear :
      {buf : List V} {cap tail head : ℕ} {x : V} {xs : List V} (w : V)
      → Holds buf cap tail head (x ∷ xs)
      → Holds (set buf tail w) cap ((tail + 1) % cap) head xs
  Holds-clear {buf} {cap} {tail} {head} {x} {xs} w h =
      let t = Holds-take h in
      let z = round-zero h.tail_in in
      record {
        room = rw (length-set buf tail w) t.room;
        tail_in = t.tail_in;
        fits = t.fits;
        head_at = t.head_at;
        at = λ k a e.
            get_elem?-set_ne buf tail (((tail + 1) % cap + k) % cap) w (λ q.
              round-ne 0 (suc k) h.tail_in (omega arith)
                (omega (arith, h.fits, lt-length_of_get_elem? xs k e))
                (sym (round-suc cap tail k) ∙ sym q ∙ sym z))
            ∙ t.at k a e;
      }

  -- Head and tail meet exactly where nothing is held.
  pub tail-ne-head :
      {buf : List V} {cap tail head : ℕ} {x : V} {xs : List V}
      → Holds buf cap tail head (x ∷ xs)
      → tail ≢ head
  tail-ne-head {buf} {cap} {tail} {head} {x} {xs} h e =
      let z = round-zero h.tail_in in
      round-ne 0 (suc (length xs)) h.tail_in (omega arith) h.fits (sym h.head_at ∙ sym e ∙ sym z)

  -- Where one more element would fill the vector, the head comes back to the tail.
  pub Holds-full :
      {buf : List V} {cap tail head : ℕ} {xs : List V}
      → Holds buf cap tail head xs
      → length xs + 1 ≡ cap
      → (head + 1) % cap ≡ tail
  Holds-full {buf} {cap} {tail} {head} {xs} h e =
      ap (λ n. (n + 1) % cap) h.head_at
      ∙ rw mod-add-mod (elim (round-cases {cap = cap} cap h.tail_in (omega arith)) [
        | inl p ↦ absurd (omega arith)
        | inr p ↦
            ap (λ n. n % cap) (let q : tail + length xs + 1 ≡ tail + cap = omega arith in q)
            ∙ p.0
            ∙ (let q : tail + cap - cap ≡ tail = omega arith in q)
      ])
