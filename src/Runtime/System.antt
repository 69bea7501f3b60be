-- ===== src/Runtime/System.antt =====
-- Goroutines that run together: any of them may take its next action at any time, and new ones
-- may start. One semaphore or gauge is followed; the answers to all other actions are free.
use mule.Base.{ℕ, ◌+◌, ◌≡◌, Bool, true, not, ◌||◌, List, [], ◌∷◌, if◌then◌else◌, ltb, leb}
use mule.Runtime.Program.{Action, Answer, Program, act, try_slot, free_slot}
use mule.Runtime.Monitor.{Keeps}
use mule.Runtime.Ledger.{Resource, slot, same_slot, after, ledger}

-- A channel takes a token unless it is full, and blocks who receives from it while it is empty.
abbrev pub possible : Resource → ℕ → ℕ → (a : Action) → Answer a → Bool
possible (slot s) capacity used (try_slot t) r =
    not (same_slot s t) || (if r then ltb used capacity else leb capacity used)
possible (slot s) capacity used (free_slot t) r = not (same_slot s t) || ltb 0 used
possible x capacity used a r = true

-- One of the goroutines takes an action.
pub data Moves : List Program → (a : Action) → Answer a → List Program → Type 0 where
  here :
      {a : Action} {k : Answer a → Program} {r : Answer a} {ps : List Program}
      → Moves (act a k ∷ ps) a r (k r ∷ ps)
  there :
      {a : Action} {r : Answer a} {p : Program} {ps qs : List Program}
      → Moves ps a r qs
      → Moves (p ∷ ps) a r (p ∷ qs)

pub record System : Type 0 where
  pub used : ℕ
  pub running : List Program

module _ (x : Resource) (capacity : ℕ) (Starts : Program → Type 0) where
  pub data Step : System → System → Type 0 where
    start : {s : System} (p : Program) → Starts p → Step s (record s { running = p ∷ s.running })
    move :
        {s : System} {a : Action} {r : Answer a} {qs : List Program}
        → Moves s.running a r qs
        → possible x capacity s.used a r ≡ true
        → Step s (record { used = after x s.used a r; running = qs })

  pub data Reach : System → Type 0 where
    idle : Reach (record { used = 0; running = [] })
    step : {s t : System} → Reach s → Step s t → Reach t

-- What is used is what the goroutines hold.
abbrev pub Holds : Resource → ℕ → List Program → Type 0
Holds x used [] = used ≡ 0
Holds x used (p ∷ ps) =
    (held : ℕ) × (rest : ℕ) × (used ≡ held + rest) × Keeps (ledger x) held p × Holds x rest ps
