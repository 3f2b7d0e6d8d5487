-- ===== src/Executor/Calls.antt =====
-- The calls that the executor makes on its states.
use mathlib.Core.Path.{◌≡◌, refl, ◌∙◌}
use r2dtu_attention.Common.{
  ℕ, zero, suc, ◌+◌, ◌%◌, ◌<◌, Bool, true, false, inl, inr, Option, none, some, List, [], ◌∷◌, ◌++◌,
  if◌then◌else◌, ltb, lt→ltb, ltb→lt, ◌==◌, ==-refl, Bool-cases, Option-cases, ◌>>=◌,
}
use r2dtu_attention.Executor.{
  StateOps, StateCmd, confirms, nexts, backs, Executor, goto_state, state_cmd, state_cmds,
  tick_state, count_down, tick, executor,
}

pub data Call : Type 0 where
  entered ticked left confirmed : ℕ → Call

-- Which state is entered and not left after one more call, where the call is in order: a state is entered when none is
-- open, and ticked, confirmed and left only while it is open.
abbrev pub after_call : Option ℕ → Call → Option (Option ℕ)
after_call none (entered i) = some (some i)
after_call (some j) (ticked i) = if j == i then some (some j) else none
after_call (some j) (confirmed i) = if j == i then some (some j) else none
after_call (some j) (left i) = if j == i then some none else none
after_call _ _ = none

unfoldable pub after_calls : Option ℕ → List Call → Option (Option ℕ)
after_calls open_ [] = some open_
after_calls open_ (c ∷ cs) = after_call open_ c >>= λ o. after_calls o cs

after_calls-append :
    (cs : List Call) (c : Call) (o : Option ℕ)
    → after_calls o (cs ++ c ∷ []) ≡ (after_calls o cs >>= λ p. after_call p c)
unfolding after_calls
after_calls-append [] c o = elim (Option-cases (after_call o c)) [
  | inl e ↦ rw e
  | inr (p, e) ↦ rw e
]
after_calls-append (d ∷ cs) c o = elim (Option-cases (after_call o d)) [
  | inl e ↦ rw e
  | inr (p, e) ↦ rw e (after_calls-append cs c p)
]

module _ {M : Type 0} (ops : StateOps M) (size : ℕ) where
  -- The same states, which also note the calls.
  abbrev pub traced : StateOps (M × List Call)
  traced = record {
    enter = λ i (m, cs). (ops.enter i m, cs ++ entered i ∷ []);
    tick = λ i (m, cs). let (b, m') = ops.tick i m in (b, (m', cs ++ ticked i ∷ []));
    leave = λ i (m, cs). (ops.leave i m, cs ++ left i ∷ []);
    confirm = λ i (m, cs). (ops.confirm i m, cs ++ confirmed i ∷ []);
  }

  -- The calls so far are in order and leave the current state open, which is one of the states.
  pub record InState (f : Executor (M × List Call)) : Type 0 where
    pub is_current : f.state ≡ some f.current_state
    pub in_range : f.current_state < size
    pub in_order : after_calls none f.machine.1 ≡ some (some f.current_state)

  called :
      (cs : List Call) (c : Call) (o p : Option ℕ)
      → after_calls none cs ≡ some o
      → after_call o c ≡ some p
      → after_calls none (cs ++ c ∷ []) ≡ some p
  called cs c o p e f = after_calls-append cs c none ∙ rw e f

  goto_state-InState :
      (f : Executor (M × List Call)) (s : ℕ) → InState f → InState (goto_state traced size f s)
  unfolding goto_state
  goto_state-InState f s v = elim (Bool-cases (ltb s size)) [
    | inr out ↦ rw out v
    | inl inside ↦
        rw (inside, v.is_current)
          (record {
            is_current = refl;
            in_range = ltb→lt s size inside;
            in_order =
                called (f.machine.1 ++ left f.current_state ∷ []) (entered s) none (some s)
                  (called f.machine.1 (left f.current_state) (some f.current_state) none v.in_order
                    (rw (==-refl f.current_state)))
                  refl;
          })
  ]

  state_cmd-InState :
      (f : Executor (M × List Call)) (cmd : StateCmd)
      → InState f
      → InState (state_cmd traced size f cmd)
  unfolding state_cmd
  state_cmd-InState f nexts v = goto_state-InState f ((f.current_state + 1) % 4294967296) v
  state_cmd-InState f backs v = goto_state-InState f ((f.current_state + 4294967295) % 4294967296) v
  state_cmd-InState f confirms v = rw v.is_current (record {
    is_current = refl;
    in_range = v.in_range;
    in_order =
        called f.machine.1 (confirmed f.current_state) (some f.current_state) (some f.current_state)
          v.in_order (rw (==-refl f.current_state));
  })

  state_cmds-InState :
      (cmds : List StateCmd) (f : Executor (M × List Call))
      → InState f
      → InState (state_cmds traced size f cmds)
  unfolding state_cmds
  state_cmds-InState [] f v = v
  state_cmds-InState (cmd ∷ cmds) f v =
      state_cmds-InState cmds (state_cmd traced size f cmd) (state_cmd-InState f cmd v)

  tick_state-InState :
      (f : Executor (M × List Call)) → InState f → InState (tick_state traced size f)
  unfolding tick_state
  tick_state-InState f v =
      let i = f.current_state in
      let done = (ops.tick i f.machine.0).0 in
      let g : Executor (M × List Call) = record f {
        state = some i;
        machine = ((ops.tick i f.machine.0).1, f.machine.1 ++ ticked i ∷ []);
      } in
      let w : InState g = record {
        is_current = refl;
        in_range = v.in_range;
        in_order = called f.machine.1 (ticked i) (some i) (some i) v.in_order (rw (==-refl i));
      } in
      rw v.is_current (chosen g done w)
    where
      chosen :
          (g : Executor (M × List Call)) (b : Bool)
          → InState g
          → InState (if b then goto_state traced size g ((f.current_state + 1) % 4294967296) else g)
      chosen g true w = goto_state-InState g ((f.current_state + 1) % 4294967296) w
      chosen g false w = w

  -- Robot::tick, and the end of a recording, which do not call the states.
  module _ (robot_tick finish : M → M) where
    abbrev on_machine : (M → M) → M × List Call → M × List Call
    on_machine h (m, cs) = (h m, cs)

    count_down-InState :
        (f : Executor (M × List Call)) → InState f → InState (count_down (on_machine finish) f)
    unfolding count_down
    count_down-InState f v = of_timer f.asr_stop_timer refl
      where
        of_timer :
            (t : Option ℕ) → f.asr_stop_timer ≡ t → InState (count_down (on_machine finish) f)
        of_timer none e =
            rw e
              (record { is_current = v.is_current; in_range = v.in_range; in_order = v.in_order })
        of_timer (some zero) e =
            rw e
              (record { is_current = v.is_current; in_range = v.in_range; in_order = v.in_order })
        of_timer (some (suc n)) e =
            rw e
              (record { is_current = v.is_current; in_range = v.in_range; in_order = v.in_order })

    -- A round of the executor for each element, with the commands that arrived.
    unfoldable pub rounds :
        Executor (M × List Call) → List (List StateCmd) → Executor (M × List Call)
    rounds f [] = f
    rounds f (cmds ∷ more) =
        rounds (tick traced size (on_machine robot_tick) (on_machine finish) f cmds) more

    rounds-InState :
        (more : List (List StateCmd)) (f : Executor (M × List Call))
        → InState f
        → InState (rounds f more)
    unfolding rounds tick
    rounds-InState [] f v = v
    rounds-InState (cmds ∷ more) f v =
        let g = state_cmds traced size f cmds in
        let w = state_cmds-InState cmds f v in
        let h : Executor (M × List Call) = record g { machine = on_machine robot_tick g.machine } in
        let x : InState h = record {
          is_current = w.is_current;
          in_range = w.in_range;
          in_order = w.in_order;
        } in
        rounds-InState more (count_down (on_machine finish) (tick_state traced size h))
          (count_down-InState (tick_state traced size h) (tick_state-InState h x))

    -- Whatever the states do and whatever commands arrive in whatever rounds, an executor of at least one state is always in
    -- one of them, its current one, and its calls are in order: a state is entered when no other is open, it is
    -- ticked and confirmed only while it is open, and it is left before the next one is entered.
    pub executor-InState :
        (m : M) (more : List (List StateCmd))
        → 0 < size
        → InState (rounds (executor traced size (m, [])) more)
    unfolding executor goto_state after_calls
    executor-InState m more h =
        let inside = lt→ltb 0 size h in
        rounds-InState more (executor traced size (m, []))
          (rw inside (record { is_current = refl; in_range = h; in_order = refl }))
