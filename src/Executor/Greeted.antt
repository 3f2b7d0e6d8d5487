-- ===== src/Executor/Greeted.antt =====
-- No person is greeted twice.
use Prim.Native.Char.{Char}
use mathlib.Core.Path.{◌≡◌, refl, ◌∙◌, sym, ap}
use mathlib.Core.Bool.{not}
use r2dtu_attention.Common.{
  ℕ, suc, Bool, true, false, ◌&&◌, ◌||◌, Option, none, String, List, [], ◌∷◌, if◌then◌else◌, ltb,
  ◌==◌, has, arith, length, Distinct,
}
use r2dtu_attention.Executor.Greet.{
  Person, say_nice_to_meet, Greet, enter, leave, confirm, is_new, begin_greeting, look_around,
  other_targets, is_learned, finish_greeting, greet_third, greet,
}
use r2dtu_attention.Executor.Greet.Tick.{terminal_cmds, go_on, switch_or, tick_on, tick}
use r2dtu_attention.Executor.Silent.{
  nice, nice-append, silent, Same, follow-Same, greet_first-Same, greet_second-Same,
  terminal_cmds-Same,
}

module _ (V : Type 0) where
  -- The ids in the set are different, as many as there were greetings, and the person that is being greeted is
  -- not among them.
  pub record IsGreet (g : Greet V) : Type 0 where
    pub distinct : Distinct g.already_greeted_ids
    pub counted : nice V g.commands ≡ length g.already_greeted_ids
    pub once : g.greet_in_progress ≡ true → has g.current_target g.already_greeted_ids ≡ false

  IsGreet-Same : (g h : Greet V) → Same V g h → IsGreet g → IsGreet h
  IsGreet-Same g h s v = record {
    distinct = rw s.ids v.distinct;
    counted = s.number ∙ v.counted ∙ ap length (sym s.ids);
    once = λ p. rw (s.ids, s.target) (v.once (sym s.progress ∙ p));
  }

  IsGreet-if : (b : Bool) (g h : Greet V) → IsGreet g → IsGreet h → IsGreet (if b then g else h)
  IsGreet-if true g h v w = v
  IsGreet-if false g h v w = w

  -- A greeting ends: the person is new in the set.
  finish_greeting-IsGreet :
      (g : Greet V) → g.greet_in_progress ≡ true → IsGreet g → IsGreet (finish_greeting V g)
  unfolding finish_greeting
  finish_greeting-IsGreet g p v = rw (v.once p) (record {
    distinct = (v.once p, v.distinct);
    counted =
        omega (arith, nice-append V g.commands (say_nice_to_meet g.newly_learned ∷ []), v.counted);
    once = λ q. cc;
  })

  greet-IsGreet :
      (g : Greet V) (t : Option (V × Bool)) (persons : List (Person V))
      → g.greet_in_progress ≡ true
      → IsGreet g
      → IsGreet (greet V g t persons)
  unfolding greet greet_third
  greet-IsGreet g t persons p v =
      IsGreet-if (g.confirm_counter == 0) _ _ (IsGreet-Same g _ (greet_first-Same V g t) v) (
        IsGreet-if (g.confirm_counter == 1) _ _ (IsGreet-Same g _ (greet_second-Same V g) v) (
          IsGreet-if (g.confirm_counter == 2) _ g
            (IsGreet-if (ltb 30 g.counter) _ g
              (IsGreet-if (is_learned V g.newly_learned persons || g.confirm_flag) _ g
                (finish_greeting-IsGreet g p v) v)
              v)
            v))

  IsGreet-when :
      (b : Bool) (g h : Greet V) → (b ≡ true → IsGreet h) → IsGreet g → IsGreet (if b then h else g)
  IsGreet-when true g h v w = v refl
  IsGreet-when false g h v w = w

  and_right : (a b : Bool) → (a && b) ≡ true → b ≡ true
  and_right true b h = h
  and_right false b h = cc

  not_true : (b : Bool) → not b ≡ true → b ≡ false
  not_true true h = cc
  not_true false h = refl

  new_id :
      (g : Greet V) (p : Person V) → is_new V g p ≡ true → has p.id g.already_greeted_ids ≡ false
  unfolding is_new
  new_id g p h = not_true (has p.id g.already_greeted_ids) (and_right _ _ h)

  begin_greeting-IsGreet :
      (g : Greet V) (p : Person V)
      → is_new V g p ≡ true
      → IsGreet g
      → IsGreet (begin_greeting V g p)
  unfolding begin_greeting
  begin_greeting-IsGreet g p y v = record {
    distinct = v.distinct;
    counted = v.counted;
    once = λ q. new_id g p y;
  }

  look_around-IsGreet :
      (persons : List (Person V)) (g : Greet V) (t : Option (V × Bool))
      → IsGreet g
      → IsGreet (look_around V g t persons).0
  unfolding look_around
  look_around-IsGreet [] g t v = v
  look_around-IsGreet (p ∷ persons) g t v =
      look_around-IsGreet persons (if is_new V g p then begin_greeting V g p else g) _ (
        IsGreet-when (is_new V g p) g (begin_greeting V g p) (λ y. begin_greeting-IsGreet g p y v)
          v)

  -- tick after the look around.
  module _ (toupper : Char → Char) (recorded : String) (messages : List (String × String)) where
    go_on-IsGreet :
        (persons : List (Person V)) (g : Greet V) (t : Option (V × Bool))
        → IsGreet g
        → IsGreet (go_on V toupper recorded messages persons g t)
    unfolding go_on
    go_on-IsGreet persons g t v =
        let m = terminal_cmds V toupper recorded g messages in
        let w = IsGreet-Same g m (terminal_cmds-Same V toupper recorded messages g) v in
        IsGreet-Same _ _ (follow-Same V (if m.greet_in_progress then greet V m t persons else m) t)
          (IsGreet-when m.greet_in_progress m (greet V m t persons)
            (λ p. greet-IsGreet m t persons p w) w)

    switch_or-IsGreet :
        (persons : List (Person V)) (g : Greet V) (t : Option (V × Bool)) (ids : List ℕ)
        → g.greet_in_progress ≡ false
        → IsGreet g
        → IsGreet (switch_or V toupper recorded messages persons g t ids)
    unfolding switch_or
    switch_or-IsGreet persons g t [] n v =
        go_on-IsGreet persons (record g { person_switch_timer = suc g.person_switch_timer }) t
          (record { distinct = v.distinct; counted = v.counted; once = v.once })
    switch_or-IsGreet persons g t (id ∷ ids) n v =
        IsGreet-if (ltb 150 g.person_switch_timer) _ _
          (record { distinct = v.distinct; counted = v.counted; once = λ p. cc })
          (go_on-IsGreet persons (record g { person_switch_timer = suc g.person_switch_timer }) t
            (record { distinct = v.distinct; counted = v.counted; once = v.once }))

    IsGreet-split :
        (b : Bool) (g h : Greet V)
        → (b ≡ true → IsGreet g)
        → (b ≡ false → IsGreet h)
        → IsGreet (if b then g else h)
    IsGreet-split true g h v w = v refl
    IsGreet-split false g h v w = w refl

    tick_on-IsGreet :
        (persons : List (Person V)) (g : Greet V) (t : Option (V × Bool))
        → IsGreet g
        → IsGreet (tick_on V toupper recorded messages persons g t)
    unfolding tick_on
    tick_on-IsGreet persons g t v =
        IsGreet-split g.greet_in_progress _ _ (λ y. go_on-IsGreet persons g t v)
          (λ n. switch_or-IsGreet persons g t (other_targets V g.current_target persons) n v)

    tick-IsGreet :
        (persons : List (Person V)) (g : Greet V)
        → IsGreet g
        → IsGreet (tick V toupper recorded messages persons g)
    unfolding tick
    tick-IsGreet persons g v =
        let r = look_around V g none persons in
        tick_on-IsGreet persons r.0 r.1 (look_around-IsGreet persons g none v)

  -- What happens to the state: its methods are called, a tick with what the robot hears and sees then.
  pub data Event : Type 0 where
    enters leaves confirms : Event
    ticks : (Char → Char) → String → List (String × String) → List (Person V) → Event

  unfoldable pub after : Greet V → List Event → Greet V
  after g [] = g
  after g (enters ∷ es) = after (enter V g) es
  after g (leaves ∷ es) = after (leave V g) es
  after g (confirms ∷ es) = after (confirm V g) es
  after g (ticks toupper recorded messages persons ∷ es) =
      after (tick V toupper recorded messages persons g) es

  after-IsGreet : (es : List Event) (g : Greet V) → IsGreet g → IsGreet (after g es)
  unfolding after enter leave confirm
  after-IsGreet [] g v = v
  after-IsGreet (enters ∷ es) g v = after-IsGreet es (enter V g) (record {
    distinct = v.distinct;
    counted = silent V g.commands _ refl ∙ v.counted;
    once = λ p. cc;
  })
  after-IsGreet (leaves ∷ es) g v = after-IsGreet es (leave V g) (record {
    distinct = v.distinct;
    counted = silent V g.commands _ refl ∙ v.counted;
    once = v.once;
  })
  after-IsGreet (confirms ∷ es) g v =
      after-IsGreet es (confirm V g)
        (record { distinct = v.distinct; counted = v.counted; once = v.once })
  after-IsGreet (ticks toupper recorded messages persons ∷ es) g v =
      after-IsGreet es (tick V toupper recorded messages persons g)
        (tick-IsGreet toupper recorded messages persons g v)

  -- A state that has greeted no one, entered and then ticked, confirmed, left and entered again in any order, with any
  -- persons and messages: the ids of the greeted persons are all different, there are as many as greetings were ended,
  -- and the person whose greeting is in progress has not been greeted before.
  pub greeted_once :
      (g : Greet V) (es : List Event)
      → g.already_greeted_ids ≡ []
      → nice V g.commands ≡ 0
      → IsGreet (after (enter V g) es)
  unfolding enter
  greeted_once g es none_greeted none_ended = after-IsGreet es (enter V g) (record {
    distinct = rw none_greeted tt;
    counted = silent V g.commands _ refl ∙ none_ended ∙ ap length (sym none_greeted);
    once = λ p. cc;
  })
