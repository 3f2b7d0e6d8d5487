-- ===== src/Script.antt =====
-- src/ocs/ScriptRunner.{h,cpp}: the operator's script. An item is shown in lines and runs its sub-items;
-- the buttons of the gamepad move through the items. Texts are lists of bytes. The int counters of the
-- line loop stay below the length of the text, and their overflow at 2 ^ 31 is left out. What
-- nlohmann::json reads from the file is an argument.
pub mod Wrap
pub mod Presses
pub mod Loaded
use r2dtu_attention.Common.{
  ℕ, zero, suc, ◌+◌, ◌-◌, ◌*◌, ◌%◌, Bool, true, false, ◌&&◌, Option, none, some, List, [], ◌∷◌,
  ◌++◌, if◌then◌else◌, ltb, ◌==◌, length, get_elem?, String, ◌>>=◌,
}
use text.Mathlib.Text.{◌==◌ as str_eq}
use r2dtu_attention.Common.Slices.{substr}

abbrev pub Bytes : Type 0
Bytes = List ℕ

-- if (sentence[i] == ' ') last_space = i; -1 is `none`.
unfoldable pub note_space : Bytes → ℕ → Option ℕ → Option ℕ
note_space s i last = elim (get_elem? s i) [
  | some c ↦ if c == 32 then some i else last
  | none ↦ last
]

-- if (last_space == -1) last_space = i;
unfoldable pub space_or : Option ℕ → ℕ → ℕ
space_or none i = i
space_or (some j) i = j

-- The loop of the constructor over i, with last_space, last_cut and long_desc_. `none` is a loop that
-- goes on.
unfoldable pub wrap_from : ℕ → Bytes → ℕ → Option ℕ → ℕ → List Bytes → Option (List Bytes)
unfolding note_space space_or
wrap_from zero s i last cut lines = none
wrap_from (suc fuel) s i last cut lines =
    let noted = note_space s i last in
    let at = space_or noted i in
    let cut_here = wrap_from fuel s (suc at) none at (lines ++ substr s cut (at - cut) ∷ []) in
    let go_on = wrap_from fuel s (suc i) noted cut lines in
    if ltb i (length s)
    then (if ltb 40 (i - cut) then cut_here else go_on)
    else some (lines ++ substr s cut (length s - cut) ∷ [])

pub data SubItem : Type 0 where
  play_wav : ℕ → SubItem
  say : Bytes → SubItem
  animation : Bytes → SubItem

pub record ScriptItem : Type 0 where
  pub short_desc : Bytes
  pub sentence : Bytes
  pub long_desc : List Bytes
  pub sub_items : List SubItem

-- The constructor of ScriptItem, with enough rounds for its loop.
unfoldable pub script_item : Bytes → Bytes → List SubItem → Option ScriptItem
unfolding wrap_from
script_item short sentence subs = do
  lines ← wrap_from (42 * suc (suc (length sentence))) sentence 0 none 0 []
  some (record {
    short_desc = short ++ 46 ∷ 46 ∷ 46 ∷ [];
    sentence = sentence;
    long_desc = lines;
    sub_items = subs;
  })

-- What the runner sends or plays: an AnimationActuationMsg, a SayActuationMsg, a sound.
pub data Output : Type 0 where
  wav : ℕ → Output
  say_actuation : ℕ → Bytes → Output
  animation_actuation : ℕ → Bytes → Output

pub record ScriptRunner : Type 0 where
  pub current_item : ℕ
  pub items : List ScriptItem
  pub next_request : ℕ
  pub outputs : List Output

-- next_request++ on a uint32_t
abbrev pub next_id : ℕ → ℕ
next_id n = suc n % 4294967296

unfoldable pub do_animation : ScriptRunner → Bytes → ScriptRunner
do_animation r name = record r {
  next_request = next_id r.next_request;
  outputs = r.outputs ++ animation_actuation r.next_request name ∷ [];
}

unfoldable pub do_say : ScriptRunner → Bytes → ScriptRunner
do_say r sentence = record r {
  next_request = next_id r.next_request;
  outputs = r.outputs ++ say_actuation r.next_request sentence ∷ [];
}

-- ScriptSubItem::execute of the three classes
unfoldable pub execute_sub : ScriptRunner → SubItem → ScriptRunner
unfolding do_say do_animation
execute_sub r (play_wav handle) = record r { outputs = r.outputs ++ wav handle ∷ [] }
execute_sub r (say sentence) = do_say r sentence
execute_sub r (animation name) = do_animation r name

-- ScriptItem::execute
unfoldable pub execute : ScriptRunner → List SubItem → ScriptRunner
unfolding execute_sub
execute r [] = r
execute r (sub ∷ subs) = execute (execute_sub r sub) subs

-- if (current_item_ + 1 < items_.size()) current_item_++;
unfoldable pub advance : ScriptRunner → ScriptRunner
advance r =
    if ltb (r.current_item + 1) (length r.items)
    then record r { current_item = suc r.current_item }
    else r

-- The first block of handle_gamepad_button: the current item runs, if there is one.
unfoldable pub run_current : ScriptRunner → ScriptRunner
unfolding execute advance
run_current r = elim (get_elem? r.items r.current_item) [
  | some item ↦ advance (execute r item.sub_items)
  | none ↦ r
]

-- if (current_item_ > 0) current_item_--;
unfoldable pub step_back : ScriptRunner → ScriptRunner
step_back r = if ltb 0 r.current_item then record r { current_item = r.current_item - 1 } else r

-- GAMEPAD_R2, GAMEPAD_PLUS and GAMEPAD_MINUS are 7, 9 and 8.
unfoldable pub handle_gamepad_button : ScriptRunner → ℕ → ℕ → ScriptRunner
unfolding run_current advance step_back
handle_gamepad_button r button state =
    let ran = if button == 7 && state == 1 then run_current r else r in
    let moved = if button == 9 && state == 1 then advance ran else ran in
    if button == 8 && state == 1 then step_back moved else moved

unfoldable pub add_item : ScriptRunner → Bytes → Bytes → List SubItem → Option ScriptRunner
unfolding script_item
add_item r desc sentence subs = do
  item ← script_item desc sentence subs
  some (record r { items = r.items ++ item ∷ [] })

-- A sub-item of the file: its type and its argument. Audio::load_wav gives the handle of a sound; an
-- unknown type adds nothing.
module _ (load_wav : Bytes → ℕ) where
  unfoldable pub sub_item_of : String → Bytes → List SubItem
  sub_item_of type arg =
      if str_eq type "play_wav"
      then play_wav (load_wav arg) ∷ []
      else if str_eq type "animation"
      then animation arg ∷ []
      else if str_eq type "say"
      then say arg ∷ []
      else []

  unfoldable pub sub_items_of : List (String × Bytes) → List SubItem
  unfolding sub_item_of
  sub_items_of [] = []
  sub_items_of ((type, arg) ∷ subs) = sub_item_of type arg ++ sub_items_of subs

  -- The loop of load_script over the elements of the file: `short`, `note` and `items`.
  unfoldable pub load_elements :
      ScriptRunner → List (Bytes × Bytes × List (String × Bytes)) → Option ScriptRunner
  unfolding add_item sub_items_of
  load_elements r [] = some r
  load_elements r ((short, note, subs) ∷ elements) = do
    r' ← add_item r short note (sub_items_of subs)
    load_elements r' elements
