-- ===== src/Executor/Silent.antt =====
-- The parts of Greet::tick that change neither the persons that are greeted nor the greeting in progress.
use Prim.Native.Char.{Char}
use mathlib.Core.Path.{◌≡◌, refl, ◌∙◌}
use r2dtu_attention.Common.{
  ℕ, suc, ◌+◌, ◌%◌, Bool, true, false, ◌&&◌, Option, none, some, String, List, [], ◌∷◌, ◌++◌,
  if◌then◌else◌, ◌==◌, arith,
}
use text.Mathlib.Text.{◌==◌ as str_eq}
use r2dtu_attention.Executor.Greet.{
  level_head, start_learn, handshake_up, handshake_down, say_hello, say_your_name, Command,
  say_nice_to_meet, Greet, send, turn_to_target, greet_first, greet_second,
}
use r2dtu_attention.Executor.Greet.Tick.{terminal_cmd, terminal_cmds, look_at_target, follow}

module _ (V : Type 0) where
  abbrev pub ends_greeting : Command V → ℕ
  ends_greeting (say_nice_to_meet name) = 1
  ends_greeting _ = 0

  -- How many greetings were brought to their end.
  abbrev pub nice : List (Command V) → ℕ
  nice [] = 0
  nice (c ∷ cs) = ends_greeting c + nice cs

  pub nice-append : (cs ds : List (Command V)) → nice (cs ++ ds) ≡ nice cs + nice ds
  nice-append [] ds = omega arith
  nice-append (c ∷ cs) ds = omega (arith, nice-append cs ds)

  -- Two states that are the same to the invariant.
  pub record Same (g h : Greet V) : Type 0 where
    pub ids : h.already_greeted_ids ≡ g.already_greeted_ids
    pub number : nice h.commands ≡ nice g.commands
    pub progress : h.greet_in_progress ≡ g.greet_in_progress
    pub target : h.current_target ≡ g.current_target

  pub Same-refl : (g : Greet V) → Same g g
  Same-refl g = record { ids = refl; number = refl; progress = refl; target = refl }

  pub Same-trans : (f g h : Greet V) → Same f g → Same g h → Same f h
  Same-trans f g h s t = record {
    ids = t.ids ∙ s.ids;
    number = t.number ∙ s.number;
    progress = t.progress ∙ s.progress;
    target = t.target ∙ s.target;
  }

  pub Same-if : (b : Bool) (f g h : Greet V) → Same f g → Same f h → Same f (if b then g else h)
  Same-if true f g h s t = s
  Same-if false f g h s t = t

  -- Commands that end no greeting.
  pub silent : (cs ds : List (Command V)) → nice ds ≡ 0 → nice (cs ++ ds) ≡ nice cs
  silent cs ds h = omega (arith, nice-append cs ds)

  pub turn_to_target-Same : (g : Greet V) (t : Option (V × Bool)) → Same g (turn_to_target V g t)
  unfolding turn_to_target
  turn_to_target-Same g none = Same-refl g
  turn_to_target-Same g (some (head, false)) = Same-refl g
  turn_to_target-Same g (some (head, true)) =
      Same-if (g.counter == 15) g _ g
        (record { ids = refl; number = silent g.commands _ refl; progress = refl; target = refl })
        (Same-refl g)

  pub look_at_target-Same : (g : Greet V) (t : Option (V × Bool)) → Same g (look_at_target V g t)
  unfolding look_at_target
  look_at_target-Same g none = Same-refl g
  look_at_target-Same g (some (head, false)) = Same-refl g
  look_at_target-Same g (some (head, true)) =
      Same-if (g.head_tracking && g.counter % 3 == 0) g _ g
        (record { ids = refl; number = silent g.commands _ refl; progress = refl; target = refl })
        (Same-refl g)

  pub follow-Same : (g : Greet V) (t : Option (V × Bool)) → Same g (follow V g t)
  unfolding follow
  follow-Same g t =
      Same-trans g (look_at_target V g t) _ (look_at_target-Same g t)
        (record { ids = refl; number = refl; progress = refl; target = refl })

  pub greet_first-Same : (g : Greet V) (t : Option (V × Bool)) → Same g (greet_first V g t)
  unfolding greet_first
  greet_first-Same g t = Same-trans g a _ sa (
      Same-trans a b _ (turn_to_target-Same a t) (
        Same-trans b c _ sc (
          Same-trans c d _ sd (
            Same-if d.confirm_flag d _ d
              (record {
                ids = refl;
                number = silent d.commands _ refl;
                progress = refl;
                target = refl;
              })
              (Same-refl d)))))
    where
      a : Greet V
      a = if g.counter == 0 then send V (record g { head_tracking = false }) level_head else g

      b : Greet V
      b = turn_to_target V a t

      c : Greet V
      c =
          if b.counter == 120
          then record b {
            commands = b.commands ++ start_learn b.current_target ∷ handshake_up ∷ say_hello ∷ [];
          }
          else b

      d : Greet V
      d = if c.counter == 150 then record c { head_tracking = true } else c

      sa : Same g a
      sa =
          Same-if (g.counter == 0) g _ g
            (record {
              ids = refl;
              number = silent g.commands _ refl;
              progress = refl;
              target = refl;
            })
            (Same-refl g)

      sc : Same b c
      sc =
          Same-if (b.counter == 120) b _ b
            (record {
              ids = refl;
              number = silent b.commands _ refl;
              progress = refl;
              target = refl;
            })
            (Same-refl b)

      sd : Same c d
      sd =
          Same-if (c.counter == 150) c _ c
            (record { ids = refl; number = refl; progress = refl; target = refl }) (Same-refl c)

  pub greet_second-Same : (g : Greet V) → Same g (greet_second V g)
  unfolding greet_second
  greet_second-Same g = Same-trans g a _ sa (
      Same-if (a.counter == 30) a _ a
        (record { ids = refl; number = refl; progress = refl; target = refl }) (Same-refl a))
    where
      a : Greet V
      a =
          if g.confirm_flag
          then record g {
            head_tracking = false;
            confirm_flag = false;
            confirm_counter = suc g.confirm_counter;
            counter = 0;
            commands = g.commands ++ handshake_down ∷ say_your_name ∷ [];
          }
          else g

      sa : Same g a
      sa =
          Same-if g.confirm_flag g _ g
            (record {
              ids = refl;
              number = silent g.commands _ refl;
              progress = refl;
              target = refl;
            })
            (Same-refl g)

  pub terminal_cmds-Same :
      (toupper : Char → Char) (recorded : String) (ms : List (String × String)) (g : Greet V)
      → Same g (terminal_cmds V toupper recorded g ms)
  unfolding terminal_cmds terminal_cmd
  terminal_cmds-Same toupper recorded [] g = Same-refl g
  terminal_cmds-Same toupper recorded ((cmd, param) ∷ ms) g =
      Same-trans g _ _
        (Same-if (str_eq cmd "sr") g _ _
          (Same-if g.recording g _ _
            (record {
              ids = refl;
              number = silent g.commands _ refl;
              progress = refl;
              target = refl;
            })
            (record {
              ids = refl;
              number = silent g.commands _ refl;
              progress = refl;
              target = refl;
            }))
          (Same-if (str_eq cmd "learn") g _ g
            (record { ids = refl; number = refl; progress = refl; target = refl }) (Same-refl g)))
        (terminal_cmds-Same toupper recorded ms (terminal_cmd V toupper recorded g (cmd, param)))
