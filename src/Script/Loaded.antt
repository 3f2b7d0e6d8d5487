-- ===== src/Script/Loaded.antt =====
-- A script that has been loaded, and any use of the gamepad after that.
use r2dtu_attention.Common.{
  ℕ, ◌+◌, ◌≡◌, inl, inr, refl, some, String, List, [], ◌∷◌, ◌++◌, arith, length, length-append,
}
use r2dtu_attention.Script.{
  Bytes, ScriptRunner, add_item, load_elements, sub_items_of, handle_gamepad_button,
}
use r2dtu_attention.Script.Wrap.{script_item_lines}
use r2dtu_attention.Script.Presses.{AtItem, handle_gamepad_button-AtItem}

-- The runner before its script is loaded.
abbrev pub empty_runner : ScriptRunner
empty_runner = record { current_item = 0; items = []; next_request = 0; outputs = [] }

-- The buttons in the order in which they arrive, each with its state.
unfoldable pub handle_all : ScriptRunner → List (ℕ × ℕ) → ScriptRunner
handle_all r [] = r
handle_all r ((button, state) ∷ events) = handle_all (handle_gamepad_button r button state) events

handle_all-AtItem :
    (events : List (ℕ × ℕ)) (r : ScriptRunner) → AtItem r → AtItem (handle_all r events)
unfolding handle_all
handle_all-AtItem [] r h = h
handle_all-AtItem ((button, state) ∷ events) r h =
    handle_all-AtItem events (handle_gamepad_button r button state)
      (handle_gamepad_button-AtItem r button state h)

module _ (load_wav : Bytes → ℕ) where
  load_elements_total :
      (elements : List (Bytes × Bytes × List (String × Bytes))) (r : ScriptRunner)
      → r.current_item ≡ 0
      → (s : ScriptRunner) × (load_elements load_wav r elements ≡ some s)
        × (s.current_item ≡ 0)
        × (length s.items ≡ length r.items + length elements)
  unfolding load_elements add_item
  load_elements_total [] r z = (r, refl, z, omega arith)
  load_elements_total ((short, note, subs) ∷ elements) r z =
      let (item, e, lines, kept) = script_item_lines short note (sub_items_of load_wav subs) in
      let (s, f, z', n) =
        load_elements_total elements (record r { items = r.items ++ item ∷ [] }) z in
      (s, rw e f, z', omega (arith, n, length-append r.items (item ∷ [])))

  at_first : (r : ScriptRunner) → r.current_item ≡ 0 → AtItem r
  at_first r z = elim r.items as (λ is. AtItem (record r { items = is })) [
    | [] ↦ inr (refl, z)
    | item ∷ items ↦ inl (omega arith)
  ]

  -- Every file of elements can be loaded, into an item for each of them, and whatever buttons are pressed
  -- afterwards, the current item is one of the script's items, or the script is empty and it is 0.
  pub loaded-AtItem :
      (elements : List (Bytes × Bytes × List (String × Bytes))) (events : List (ℕ × ℕ))
      → (r : ScriptRunner) × (load_elements load_wav empty_runner elements ≡ some r)
        × (length r.items ≡ length elements)
        × AtItem (handle_all r events)
  loaded-AtItem elements events =
      let (r, e, z, n) = load_elements_total elements empty_runner refl in
      (r, e, omega (arith, n), handle_all-AtItem events r (at_first r z))
