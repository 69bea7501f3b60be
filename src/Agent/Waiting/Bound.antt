-- ===== src/Agent/Waiting/Bound.antt =====
-- How long `getConn` waits.
use mule.Base.{
  ℕ, zero, suc, ◌+◌, ◌*◌, ◌/◌, ◌≤◌, ◌<◌, ◌≡◌, true, false, Option, none, some, ltb, Bool-cases,
  subst, ◌==◌, Option-cases, inl, inr, arith,
}
use mule.Agent.Waiting.{
  Turns, Found, connected, not_connected, canceled, poll_interval, poll, get_conn_from, get_conn,
}

-- `time.After` gives no value before its time, and the clock does not run backwards.
abbrev pub Ticks : Turns → ℕ → Type 0
Ticks turns start =
    (start ≤ turns.now 0) × ((i : ℕ) → turns.now i + poll_interval ≤ turns.now (suc i))

-- A turn after which the loop goes on.
abbrev pub GoesOn : Turns → ℕ → ℕ → Type 0
GoesOn turns deadline i =
    (turns.conn i ≡ none) × (turns.now i ≤ deadline) × (turns.cancelled i ≡ false)

-- What a turn has found that ends the loop.
abbrev pub EndsWith : Turns → ℕ → ℕ → Found → Type 0
EndsWith turns deadline n (connected conn) = turns.conn n ≡ some conn
EndsWith turns deadline n not_connected = (turns.conn n ≡ none) × (deadline < turns.now n)
EndsWith turns deadline n canceled =
    (turns.conn n ≡ none) × (turns.now n ≤ deadline) × (turns.cancelled n ≡ true)

-- From a turn on: the turn that ends the loop, and all before it.
abbrev pub Decides : Turns → ℕ → ℕ → ℕ → Found → Type 0
Decides turns deadline i fuel outcome =
    (n : ℕ) × (n ≤ i + fuel)
    × ((j : ℕ) → i ≤ j → j < n → GoesOn turns deadline j)
    × EndsWith turns deadline n outcome

ends_here :
    (turns : Turns) (deadline i fuel : ℕ) (outcome : Found)
    → EndsWith turns deadline i outcome
    → Decides turns deadline i fuel outcome
ends_here turns deadline i fuel outcome h = (i, omega arith, λ j low high. absurd (omega arith), h)

goes_on :
    (turns : Turns) (deadline i fuel : ℕ) (outcome : Found)
    → GoesOn turns deadline i
    → Decides turns deadline (suc i) fuel outcome
    → Decides turns deadline i (suc fuel) outcome
goes_on turns deadline i fuel outcome here (n, bound, before, ends) = (n, omega arith, later, ends)
  where
    same : (j : ℕ) → (j == i) ≡ true → i ≡ j
    same j e = ground arith

    beyond : (j : ℕ) → i ≤ j → (j == i) ≡ false → suc i ≤ j
    beyond j low e = ground arith

    later : (j : ℕ) → i ≤ j → j < n → GoesOn turns deadline j
    later j low high = elim (Bool-cases (j == i)) [
      | inl e ↦ subst (GoesOn turns deadline) (same j e) here
      | inr e ↦ before j (beyond j low e) high
    ]

in_time : (a b : ℕ) → ltb a b ≡ false → b ≤ a
in_time a b h = ground arith

too_late : (a b : ℕ) → ltb a b ≡ true → a < b
too_late a b h = ground arith

-- A turn and what follows it, where there is a decision.
Decides-turn :
    (turns : Turns) (deadline fuel i : ℕ) (next : Option Found)
    → (GoesOn turns deadline i
        → (outcome : Found) × (next ≡ some outcome) × Decides turns deadline i fuel outcome)
    → (outcome : Found) × (poll (turns.conn i) (ltb deadline (turns.now i)) (turns.cancelled i) next
        ≡ some outcome)
      × Decides turns deadline i fuel outcome
Decides-turn turns deadline fuel i next on = elim (Option-cases (turns.conn i)) [
  | inr (conn, c) ↦ (connected conn, rw c, ends_here turns deadline i fuel (connected conn) c)
  | inl c ↦ elim (Bool-cases (ltb deadline (turns.now i))) [
    | inl l ↦ (
      not_connected,
      rw (c, l),
      ends_here turns deadline i fuel not_connected (c, too_late deadline (turns.now i) l),
    )
    | inr l ↦ elim (Bool-cases (turns.cancelled i)) [
      | inl d ↦ (
        canceled,
        rw (c, l, d),
        ends_here turns deadline i fuel canceled (c, in_time deadline (turns.now i) l, d),
      )
      | inr d ↦ rw (c, l, d) (on (c, in_time deadline (turns.now i) l, d))
    ]
  ]
]

Decides-from :
    (turns : Turns) (deadline fuel i : ℕ)
    → ((j : ℕ) → turns.now j + poll_interval ≤ turns.now (suc j))
    → deadline < turns.now i + fuel * poll_interval
    → (outcome : Found) × (get_conn_from (suc fuel) turns deadline i ≡ some outcome)
      × Decides turns deadline i fuel outcome
unfolding get_conn_from
Decides-from turns deadline zero i ticks h =
    Decides-turn turns deadline zero i none (λ here. absurd (let late = here.1 in omega arith))
Decides-from turns deadline (suc fuel) i ticks h =
    let step = ticks i in
    let (outcome, e, found) = Decides-from turns deadline fuel (suc i) ticks (omega arith) in
    Decides-turn turns deadline (suc fuel) i (get_conn_from (suc fuel) turns deadline (suc i))
      (λ here. (outcome, e, goes_on turns deadline i fuel outcome here found))

-- How many turns the timeout leaves before the last, which comes after the deadline.
abbrev pub turns_before : ℕ → ℕ
turns_before timeout = suc (timeout / poll_interval)

-- getConn ends within a turn for each 25 ms of the timeout and two more, if the clock does not run
-- backwards and time.After gives nothing before its time: at the first turn that finds a
-- connection, is past the deadline or finds the context done, with that result.
pub get_conn-ends :
    (turns : Turns) (start timeout : ℕ)
    → Ticks turns start
    → (outcome : Found) × (get_conn (suc (turns_before timeout)) turns start timeout ≡ some outcome)
      × Decides turns (start + timeout) 0 (turns_before timeout) outcome
unfolding get_conn
get_conn-ends turns start timeout ticks =
    let first = ticks.0 in
    Decides-from turns (start + timeout) (turns_before timeout) 0 ticks.1 (omega arith)
