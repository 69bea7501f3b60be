-- ===== src/Runtime/Monitor.antt =====
-- Rules on the order of a goroutine's actions: a monitor follows the actions in a state of its
-- own, and says of each whether it may be taken and in which states the goroutine may return.
use mule.Base.{List, [], ◌∷◌}
use mule.Runtime.Program.{
  Action, Answer, Program, finish, act, Event, did, Trace, cut, next, Run, returned, then_run,
}

pub record Monitor (S : Type 0) : Type 1 where
  pub follow : S → (a : Action) → Answer a → S
  pub allowed : S → Action → Type 0
  pub done : S → Type 0

module _ {S : Type 0} (m : Monitor S) where
  -- Every run of the goroutine keeps the rules.
  abbrev pub Keeps : S → Program → Type 0
  Keeps s finish = m.done s
  Keeps s (act a k) = m.allowed s a × ((r : Answer a) → Keeps (m.follow s a r) (k r))

  abbrev pub Obeyed : S → List Event → Type 0
  Obeyed s [] = Unit
  Obeyed s (did a r ∷ es) = m.allowed s a × Obeyed (m.follow s a r) es

  pub Keeps-Obeyed :
      {p : Program} {es : List Event} → Trace p es → (s : S) → Keeps s p → Obeyed s es
  Keeps-Obeyed cut s h = tt
  Keeps-Obeyed (next {a = a} r t) s h = (h.0, Keeps-Obeyed t (m.follow s a r) (h.1 r))

  abbrev pub state_after : S → List Event → S
  state_after s [] = s
  state_after s (did a r ∷ es) = state_after (m.follow s a r) es

  pub Keeps-done :
      {p : Program} {es : List Event} → Run p es → (s : S) → Keeps s p → m.done (state_after s es)
  Keeps-done returned s h = h
  Keeps-done (then_run {a = a} r run) s h = Keeps-done run (m.follow s a r) (h.1 r)
