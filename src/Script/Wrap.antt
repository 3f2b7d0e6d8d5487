-- ===== src/Script/Wrap.antt =====
-- The lines of a script item: the loop that cuts a sentence at its spaces ends, and loses no byte.
use mathlib.Core.List.{append_assoc, append-nil}
use r2dtu_attention.Common.{
  ℕ, zero, suc, ◌+◌, ◌-◌, ◌*◌, ◌≤◌, ◌<◌, ◌≡◌, ◌⊎◌, inl, inr, refl, ap, ◌∙◌, Option, none, some,
  List, [], ◌∷◌, ◌++◌, arith, length, get_elem?, ltb, ltb→lt, ◌==◌, All, All-append, Bool-cases,
  Option-cases,
}
use r2dtu_attention.Common.Slices.{
  drop, substr, concat, concat-append, length-take-le, length-drop, take_all, take-append-drop,
}
use r2dtu_attention.Script.{
  Bytes, note_space, space_or, wrap_from, script_item, SubItem, ScriptItem,
}

-- What is known of last_space when the loop reaches i: it lies in the current line, and after its start
-- except once, which the spare rounds b pay for.
abbrev Fine : Option ℕ → ℕ → ℕ → ℕ → Type 0
Fine none cut i b = (cut < i) ⊎ (42 ≤ b)
Fine (some j) cut i b = (j < i) × (cut ≤ j) × ((cut < j) ⊎ (42 ≤ b))

-- The same once s[i] has been looked at.
abbrev Noted : Option ℕ → ℕ → ℕ → ℕ → Type 0
Noted none cut i b = (cut < i) ⊎ (42 ≤ b)
Noted (some j) cut i b = (j ≤ i) × (cut ≤ j) × ((cut < j) ⊎ (42 ≤ b))

later : (last : Option ℕ) (cut i b : ℕ) → Fine last cut i b → (cut < i) ⊎ (42 ≤ b)
later none cut i b f = f
later (some j) cut i b f = inl (omega arith)

Fine-Noted : (last : Option ℕ) (cut i b : ℕ) → Fine last cut i b → Noted last cut i b
Fine-Noted none cut i b f = f
Fine-Noted (some j) cut i b f = (omega arith, f.1, f.2)

note_space-cases :
    (s : Bytes) (i : ℕ) (last : Option ℕ)
    → (note_space s i last ≡ some i) ⊎ (note_space s i last ≡ last)
unfolding note_space
note_space-cases s i last = elim (Option-cases (get_elem? s i)) [
  | inl e ↦ inr (rw (e, note_space))
  | inr (c, e) ↦ elim (Bool-cases (c == 32)) [
    | inl y ↦ inl (rw (e, note_space) (rw y))
    | inr y ↦ inr (rw (e, note_space) (rw y))
  ]
]

note_space-Noted :
    (s : Bytes) (i : ℕ) (last : Option ℕ) (cut b : ℕ)
    → cut ≤ i
    → Fine last cut i b
    → Noted (note_space s i last) cut i b
note_space-Noted s i last cut b h f = elim (note_space-cases s i last) [
  | inl e ↦ rw e (omega arith, h, later last cut i b f)
  | inr e ↦ rw e (Fine-Noted last cut i b f)
]

Noted-Fine :
    (last : Option ℕ) (cut i b : ℕ) → cut ≤ i → Noted last cut i b → Fine last cut (suc i) b
Noted-Fine none cut i b h f = inl (omega arith)
Noted-Fine (some j) cut i b h f = (omega arith, f.1, f.2)

-- Where the line is cut.
cut_place :
    (last : Option ℕ) (cut i b : ℕ)
    → cut + 40 < i
    → Noted last cut i b
    → (cut ≤ space_or last i) × (space_or last i ≤ i) × ((cut < space_or last i) ⊎ (42 ≤ b))
unfolding space_or
cut_place none cut i b h f = (omega arith, omega arith, inl (omega arith))
cut_place (some j) cut i b h f = (f.1, f.0, f.2)

-- The lines so far are short, and with the rest of the sentence they make it up.
record Cuts (s : Bytes) (cut : ℕ) (lines : List Bytes) : Type 0 where
  short : All (λ l. length l ≤ 41) lines
  whole : concat lines ++ drop cut s ≡ s

Cuts-next :
    (s : Bytes) (cut at : ℕ) (lines : List Bytes)
    → cut ≤ at
    → at ≤ cut + 41
    → Cuts s cut lines
    → Cuts s at (lines ++ substr s cut (at - cut) ∷ [])
Cuts-next s cut at lines h k c =
    let piece = substr s cut (at - cut) in
    let e : at ≡ cut + (at - cut) = omega arith in
    let le : length piece ≤ 41 = omega (arith, length-take-le (at - cut) (drop cut s)) in
    record {
      short = All-append (λ l. length l ≤ 41) lines (piece ∷ []) c.short (le, tt);
      whole =
          ap (λ l. l ++ drop at s) (concat-append lines (piece ∷ []))
          ∙ append_assoc (concat lines) (piece ++ []) (drop at s)
          ∙ ap (λ l. concat lines ++ (l ++ drop at s)) (append-nil piece)
          ∙ ap (λ n. concat lines ++ (piece ++ drop n s)) e
          ∙ ap (λ l. concat lines ++ l) (take-append-drop cut (at - cut) s)
          ∙ c.whole;
    }

-- What the constructor promises of the lines.
abbrev pub AreLines : Bytes → List Bytes → Type 0
AreLines s lines = All (λ l. length l ≤ 41) lines × (concat lines ≡ s)

Cuts-last :
    (s : Bytes) (cut : ℕ) (lines : List Bytes)
    → length s ≤ cut + 41
    → Cuts s cut lines
    → AreLines s (lines ++ substr s cut (length s - cut) ∷ [])
Cuts-last s cut lines h c =
    let piece = substr s cut (length s - cut) in
    let le : length piece ≤ 41 = omega (arith, length-take-le (length s - cut) (drop cut s)) in
    let e : piece ≡ drop cut s =
      take_all (length s - cut) (drop cut s) (omega (arith, length-drop cut s)) in
    (
      All-append (λ l. length l ≤ 41) lines (piece ∷ []) c.short (le, tt),
      concat-append lines (piece ∷ [])
          ∙ ap (λ l. concat lines ++ l) (append-nil piece)
          ∙ ap (λ l. concat lines ++ l) e
          ∙ c.whole,
    )

wrap_from_total :
    (fuel : ℕ) (s : Bytes) (i : ℕ) (last : Option ℕ) (cut : ℕ) (lines : List Bytes) (b : ℕ)
    → 42 * (length s - cut) + b + 42 ≤ fuel + (i - cut)
    → cut ≤ i
    → i ≤ cut + 41
    → Fine last cut i b
    → Cuts s cut lines
    → (r : List Bytes) × (wrap_from fuel s i last cut lines ≡ some r) × AreLines s r
unfolding wrap_from
wrap_from_total zero s i last cut lines b m h k f c = absurd (omega arith)
wrap_from_total (suc fuel) s i last cut lines b m h k f c =
    let noted = note_space-Noted s i last cut b h f in
    let last' = note_space s i last in
    elim (Bool-cases (ltb i (length s))) [
      | inr out ↦ (
        lines ++ substr s cut (length s - cut) ∷ [],
        rw out,
        Cuts-last s cut lines (ground arith) c,
      )
      | inl more ↦ elim (Bool-cases (ltb 40 (i - cut))) [
        | inr short ↦
            let (r, e, a) =
              wrap_from_total fuel s (suc i) last' cut lines b (omega arith) (omega arith)
                (ground arith) (Noted-Fine last' cut i b h noted) c in
            (r, rw (more, short) e, a)
        | inl long ↦
            let place = cut_place last' cut i b (ground arith) noted in
            let at = space_or last' i in
            let (r, e, a) =
              wrap_from_total fuel s (suc at) none at (lines ++ substr s cut (at - cut) ∷ []) 0
                (omega (arith, place.0, place.1, ltb→lt i (length s) more)) (omega arith)
                (omega arith) (inl (omega arith))
                (Cuts-next s cut at lines place.0 (omega (arith, place.1)) c) in
            (r, rw (more, long) e, a)
      ]
    ]

-- The constructor of a script item ends, for every sentence: its lines have at most 41 bytes each, and
-- one after the other they are the sentence.
pub script_item_lines :
    (short sentence : Bytes) (subs : List SubItem)
    → (item : ScriptItem) × (script_item short sentence subs ≡ some item)
      × AreLines sentence item.long_desc
      × (item.sub_items ≡ subs)
unfolding script_item
script_item_lines short sentence subs =
    let (lines, e, a) =
      wrap_from_total (42 * suc (suc (length sentence))) sentence 0 none 0 [] 42 (omega arith)
        (omega arith) (omega arith) (inr (omega arith)) (record { short = tt; whole = refl }) in
    (
      record {
        short_desc = short ++ 46 ∷ 46 ∷ 46 ∷ [];
        sentence = sentence;
        long_desc = lines;
        sub_items = subs;
      },
      rw e,
      a,
      refl,
    )
