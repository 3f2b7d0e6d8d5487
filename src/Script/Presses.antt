-- ===== src/Script/Presses.antt =====
-- The gamepad's buttons: the script stays at one of its items, and runs them in order.
use mathlib.Core.List.{append_assoc, append-nil}
use r2dtu_attention.Common.{
  ℕ, zero, suc, ◌+◌, ◌-◌, ◌≤◌, ◌<◌, ◌≡◌, ◌⊎◌, inl, inr, refl, ap, ◌∙◌, sym, true, false, some, List,
  [], ◌∷◌, ◌++◌, Bool, if◌then◌else◌, ◌&&◌, lt→ltb, arith, length, get_elem?, ltb, ◌==◌, Bool-cases,
  Option-cases, get_elem?_total,
}
use r2dtu_attention.Common.Slices.{take, drop}
use r2dtu_attention.Script.{
  SubItem, play_wav, say, animation, ScriptItem, Output, wav, say_actuation, animation_actuation,
  ScriptRunner, next_id, execute_sub, execute, do_say, do_animation, advance, run_current,
  step_back, handle_gamepad_button,
}

-- An index below the number of items, or 0 where there is none.
abbrev pub AtItem : ScriptRunner → Type 0
AtItem r = (r.current_item < length r.items) ⊎ ((r.items ≡ []) × (r.current_item ≡ 0))

execute_sub-keeps :
    (r : ScriptRunner) (sub : SubItem)
    → ((execute_sub r sub).items ≡ r.items) × ((execute_sub r sub).current_item ≡ r.current_item)
unfolding execute_sub do_say do_animation
execute_sub-keeps r (play_wav h) = (refl, refl)
execute_sub-keeps r (say s) = (refl, refl)
execute_sub-keeps r (animation n) = (refl, refl)

execute-keeps :
    (r : ScriptRunner) (subs : List SubItem)
    → ((execute r subs).items ≡ r.items) × ((execute r subs).current_item ≡ r.current_item)
unfolding execute
execute-keeps r [] = (refl, refl)
execute-keeps r (sub ∷ subs) =
    let h = execute-keeps (execute_sub r sub) subs in
    let k = execute_sub-keeps r sub in (h.0 ∙ k.0, h.1 ∙ k.1)

AtItem-of :
    (r r' : ScriptRunner)
    → r'.items ≡ r.items
    → r'.current_item ≡ r.current_item
    → AtItem r
    → AtItem r'
AtItem-of r r' e f (inl h) = inl (rw (e, f) h)
AtItem-of r r' e f (inr (n, z)) = inr (e ∙ n, f ∙ z)

advance-AtItem : (r : ScriptRunner) → AtItem r → AtItem (advance r)
unfolding advance
advance-AtItem r h = elim (Bool-cases (ltb (r.current_item + 1) (length r.items))) [
  | inl y ↦ rw y (inl (ground arith))
  | inr n ↦ rw n h
]

step_back-AtItem : (r : ScriptRunner) → AtItem r → AtItem (step_back r)
unfolding step_back
step_back-AtItem r h = elim (Bool-cases (ltb 0 r.current_item)) [
  | inl y ↦ rw y (back h (ground arith))
  | inr n ↦ rw n h
]
  where
    back : AtItem r → 0 < r.current_item → AtItem (record r { current_item = r.current_item - 1 })
    back (inl k) p = inl (omega arith)
    back (inr (e, z)) p = absurd (omega arith)

run_current-AtItem : (r : ScriptRunner) → AtItem r → AtItem (run_current r)
unfolding run_current
run_current-AtItem r h = elim (Option-cases (get_elem? r.items r.current_item)) [
  | inl e ↦ rw (e, run_current) h
  | inr (item, e) ↦
      let k = execute-keeps r item.sub_items in
      rw (e, run_current)
        (advance-AtItem (execute r item.sub_items)
          (AtItem-of r (execute r item.sub_items) k.0 k.1 h))
]

when-AtItem : (b : Bool) (r r' : ScriptRunner) → AtItem r → AtItem r' → AtItem (if b then r' else r)
when-AtItem true r r' h h' = h'
when-AtItem false r r' h h' = h

pub handle_gamepad_button-AtItem :
    (r : ScriptRunner) (button state : ℕ) → AtItem r → AtItem (handle_gamepad_button r button state)
unfolding handle_gamepad_button
handle_gamepad_button-AtItem r button state h =
    let ran = if button == 7 && state == 1 then run_current r else r in
    let a = when-AtItem (button == 7 && state == 1) r (run_current r) h (run_current-AtItem r h) in
    let moved = if button == 9 && state == 1 then advance ran else ran in
    let b = when-AtItem (button == 9 && state == 1) ran (advance ran) a (advance-AtItem ran a) in
    when-AtItem (button == 8 && state == 1) moved (step_back moved) b (step_back-AtItem moved b)

-- What a list of sub-items sends, its requests numbered from n on, and the number after them.
abbrev pub outputs_of : ℕ → List SubItem → List Output
outputs_of n [] = []
outputs_of n (play_wav h ∷ subs) = wav h ∷ outputs_of n subs
outputs_of n (say s ∷ subs) = say_actuation n s ∷ outputs_of (next_id n) subs
outputs_of n (animation a ∷ subs) = animation_actuation n a ∷ outputs_of (next_id n) subs

abbrev id_after : ℕ → List SubItem → ℕ
id_after n [] = n
id_after n (play_wav h ∷ subs) = id_after n subs
id_after n (say s ∷ subs) = id_after (next_id n) subs
id_after n (animation a ∷ subs) = id_after (next_id n) subs

outputs_of-append :
    (n : ℕ) (xs ys : List SubItem)
    → outputs_of n (xs ++ ys) ≡ outputs_of n xs ++ outputs_of (id_after n xs) ys
outputs_of-append n [] ys = refl
outputs_of-append n (play_wav h ∷ xs) ys = ap (λ os. wav h ∷ os) (outputs_of-append n xs ys)
outputs_of-append n (say s ∷ xs) ys =
    ap (λ os. say_actuation n s ∷ os) (outputs_of-append (next_id n) xs ys)
outputs_of-append n (animation a ∷ xs) ys =
    ap (λ os. animation_actuation n a ∷ os) (outputs_of-append (next_id n) xs ys)

-- Running sub-items sends what they ask for, after what was sent before.
execute_outputs :
    (r : ScriptRunner) (subs : List SubItem)
    → ((execute r subs).outputs ≡ r.outputs ++ outputs_of r.next_request subs)
      × ((execute r subs).next_request ≡ id_after r.next_request subs)
unfolding execute execute_sub do_say do_animation
execute_outputs r [] = (sym (append-nil r.outputs), refl)
execute_outputs r (sub ∷ subs) =
    let h = execute_outputs (execute_sub r sub) subs in (h.0 ∙ joined sub, h.1 ∙ counted sub)
  where
    joined :
        (sub : SubItem)
        → (execute_sub r sub).outputs ++ outputs_of (execute_sub r sub).next_request subs
          ≡ r.outputs ++ outputs_of r.next_request (sub ∷ subs)
    joined (play_wav h) = append_assoc r.outputs (wav h ∷ []) (outputs_of r.next_request subs)
    joined (say s) =
        append_assoc r.outputs (say_actuation r.next_request s ∷ [])
          (outputs_of (next_id r.next_request) subs)
    joined (animation a) =
        append_assoc r.outputs (animation_actuation r.next_request a ∷ [])
          (outputs_of (next_id r.next_request) subs)

    counted :
        (sub : SubItem)
        → id_after (execute_sub r sub).next_request subs ≡ id_after r.next_request (sub ∷ subs)
    counted (play_wav h) = refl
    counted (say s) = refl
    counted (animation a) = refl

-- The sub-items of some items, in order.
abbrev pub all_subs : List ScriptItem → List SubItem
all_subs [] = []
all_subs (item ∷ items) = item.sub_items ++ all_subs items

-- The button R2 is pressed some times.
unfoldable pub press_run : ℕ → ScriptRunner → ScriptRunner
unfolding handle_gamepad_button
press_run zero r = r
press_run (suc k) r = press_run k (handle_gamepad_button r 7 1)

take-drop_at :
    (items : List ScriptItem) (c k : ℕ) (item : ScriptItem)
    → get_elem? items c ≡ some item
    → take (suc k) (drop c items) ≡ item ∷ take k (drop (suc c) items)
take-drop_at [] c k item e = cc
take-drop_at (x ∷ items) zero k item e = ground arith
take-drop_at (x ∷ items) (suc c) k item e = take-drop_at items c k item e

press_current :
    (r : ScriptRunner) (item : ScriptItem)
    → get_elem? r.items r.current_item ≡ some item
    → handle_gamepad_button r 7 1 ≡ advance (execute r item.sub_items)
unfolding handle_gamepad_button
press_current r item e = rw (e, run_current)

-- What the button does from then on, where `k` more presses have an item.
abbrev Runs : ℕ → ScriptRunner → Type 0
Runs k r =
    (press_run k r).outputs
    ≡ r.outputs ++ outputs_of r.next_request (all_subs (take k (drop r.current_item r.items)))

advanced :
    (k : ℕ) (r : ScriptRunner)
    → r.current_item + suc k ≤ length r.items
    → ((q : ScriptRunner) → q.current_item + k ≤ length q.items → Runs k q)
    → (press_run k (advance r)).outputs
      ≡ r.outputs
        ++ outputs_of r.next_request (all_subs (take k (drop (suc r.current_item) r.items)))
unfolding advance press_run
advanced zero r h ih = ground (arith, append-nil r.outputs)
advanced (suc k) r h ih =
    let y : ltb (r.current_item + 1) (length r.items) ≡ true = lt→ltb _ _ (omega arith) in
    rw y (ih (record r { current_item = suc r.current_item }) (omega arith))

-- Where at least as many items are left as the button is pressed, the presses run the items from the
-- current one on, each once and in order, and their requests get consecutive numbers (modulo 2 ^ 32).
pub press_run_lem :
    (k : ℕ) (r : ScriptRunner)
    → r.current_item + k ≤ length r.items
    → (press_run k r).outputs
      ≡ r.outputs ++ outputs_of r.next_request (all_subs (take k (drop r.current_item r.items)))
unfolding press_run
press_run_lem zero r h = sym (append-nil r.outputs)
press_run_lem (suc k) r h =
    let (item, e) = get_elem?_total r.items r.current_item (omega arith) in
    let subs = item.sub_items in
    let ran = execute r subs in
    let keeps = execute-keeps r subs in
    let out = execute_outputs r subs in
    let rest = all_subs (take k (drop (suc r.current_item) r.items)) in
    ap (λ q. (press_run k q).outputs) (press_current r item e)
    ∙ advanced k ran (rw (keeps.0, keeps.1) h) (press_run_lem k)
    ∙ rw (keeps.0, keeps.1, out.0, out.1)
        (append_assoc r.outputs (outputs_of r.next_request subs)
            (outputs_of (id_after r.next_request subs) rest)
          ∙ ap (λ os. r.outputs ++ os) (sym (outputs_of-append r.next_request subs rest))
          ∙ ap (λ is. r.outputs ++ outputs_of r.next_request (all_subs is))
              (sym (take-drop_at r.items r.current_item k item e)))
