-- ===== src/Runtime/Sharing.antt =====
-- What the ledgers of single goroutines give for a system of them.
use mule.Base.{ℕ, ◌+◌, ◌≤◌, ◌≡◌, refl, subst, true, List, [], ◌∷◌, arith}
use mule.Runtime.Program.{Action, Answer, Program, finish, Slot, try_slot, free_slot}
use mule.Runtime.Monitor.{Keeps}
use mule.Runtime.Ledger.{Resource, slot, gives, after, ledger}
use mule.Runtime.System.{
  possible, Moves, here, there, System, Reach, Holds, start, move, idle, step,
}

-- A goroutine changes the whole as it changes its own part.
after_add :
    (x : Resource) (held rest : ℕ) (a : Action) (r : Answer a)
    → (gives x a ≡ true → 1 ≤ held)
    → after x (held + rest) a r ≡ after x held a r + rest
after_add x held rest a r h = ground arith

after_add_right :
    (x : Resource) (held rest : ℕ) (a : Action) (r : Answer a)
    → (gives x a ≡ true → 1 ≤ rest)
    → after x (held + rest) a r ≡ held + after x rest a r
after_add_right x held rest a r h = ground arith

Moves-Holds :
    (x : Resource) {a : Action} {r : Answer a} {ps qs : List Program}
    → Moves ps a r qs
    → (used : ℕ) → Holds x used ps
    → Holds x (after x used a r) qs × (gives x a ≡ true → 1 ≤ used)
Moves-Holds x {a = a} {r = r} here used (held, rest, e, keeps, others) = (
  (after x held a r, rest, rw (e, after_add x held rest a r keeps.0), keeps.1 r, others),
  λ g. let one = keeps.0 g in omega arith,
)
Moves-Holds x {a = a} {r = r} (there m) used (held, rest, e, keeps, others) =
    let (moved, some_left) = Moves-Holds x m rest others in
    (
      (held, after x rest a r, rw (e, after_add_right x held rest a r some_left), keeps, moved),
      λ g. let one = some_left g in omega arith,
    )

-- All goroutines have returned.
abbrev pub Quiet : List Program → Type 0
Quiet [] = Unit
Quiet (p ∷ ps) = (p ≡ finish) × Quiet ps

Holds-Quiet : (x : Resource) (used : ℕ) (ps : List Program) → Holds x used ps → Quiet ps → used ≡ 0
Holds-Quiet x used [] h q = h
Holds-Quiet x used (p ∷ ps) (held, rest, e, keeps, others) (returned, q) =
    let none_held : held ≡ 0 = subst (λ z. Keeps (ledger x) held z) returned keeps in
    let none_left = Holds-Quiet x rest ps others q in omega arith

module _ (x : Resource) (capacity : ℕ) (Starts : Program → Type 0)
    (keeps : (p : Program) → Starts p → Keeps (ledger x) 0 p) where
  pub Reach-Holds : {s : System} → Reach x capacity Starts s → Holds x s.used s.running
  Reach-Holds idle = refl
  Reach-Holds (step {s = s} reached (start p started)) =
      (0, s.used, omega arith, keeps p started, Reach-Holds reached)
  Reach-Holds (step {s = s} reached (move m can)) = (Moves-Holds x m s.used (Reach-Holds reached)).0

  -- A goroutine that gives back finds something to take out.
  pub Reach-gives :
      {s : System} {a : Action} {r : Answer a} {qs : List Program}
      → Reach x capacity Starts s
      → Moves s.running a r qs
      → gives x a ≡ true
      → 1 ≤ s.used
  Reach-gives {s = s} reached m = (Moves-Holds x m s.used (Reach-Holds reached)).1

  pub Reach-Quiet : {s : System} → Reach x capacity Starts s → Quiet s.running → s.used ≡ 0
  Reach-Quiet {s = s} reached q = Holds-Quiet x s.used s.running (Reach-Holds reached) q

after_fits :
    (s : Slot) (capacity used : ℕ) (a : Action) (r : Answer a)
    → possible (slot s) capacity used a r ≡ true
    → used ≤ capacity
    → after (slot s) used a r ≤ capacity
after_fits s capacity used (try_slot t) r can h = ground arith
after_fits s capacity used (free_slot t) r can h = ground arith
after_fits s capacity used a r can h = ground arith

pub Reach-fits :
    (s : Slot) (capacity : ℕ) (Starts : Program → Type 0) {t : System}
    → Reach (slot s) capacity Starts t
    → t.used ≤ capacity
Reach-fits s capacity Starts idle = omega arith
Reach-fits s capacity Starts (step reached (start p started)) = Reach-fits s capacity Starts reached
Reach-fits s capacity Starts (step {s = t} reached (move {a = a} {r = r} m can)) =
    after_fits s capacity t.used a r can (Reach-fits s capacity Starts reached)
