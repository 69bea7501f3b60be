-- ===== src/Listening.antt =====
-- `acceptForward` (internal/agent/agent.go) and `acceptReverse` (internal/server/server.go): the
-- loops of all TCP listeners over the channel of slots that they share. The two differ in what
-- they do with an error.
pub mod Kept
pub mod Settled
mod Runs
use mule.Base.{ℕ, suc, ◌-◌, ◌==◌, Bool, true, false, [], ◌∷◌, ◌||◌, List, if◌then◌else◌, ltb}

pub record Held : Type 0 where
  -- The slots that are taken.
  pub taken_slots : ℕ
  -- The connections whose goroutine runs, those whose goroutine has ended, and those that the loop
  -- has closed for want of a slot.
  pub serving : List ℕ
  pub served : List ℕ
  pub rejected : List ℕ

abbrev pub idle : Held
idle = record { taken_slots = 0; serving = []; served = []; rejected = [] }

abbrev pub admitted : Bool → ℕ → Held → Held
admitted true conn held = record held {
  taken_slots = suc held.taken_slots;
  serving = conn ∷ held.serving;
}
admitted false conn held = record held { rejected = conn ∷ held.rejected }

unfoldable pub admit : ℕ → ℕ → Held → Held
admit capacity conn held = admitted (ltb held.taken_slots capacity) conn held

abbrev pub is_in : ℕ → List ℕ → Bool
is_in x [] = false
is_in x (y ∷ ys) = if x == y then true else is_in x ys

abbrev pub remove : ℕ → List ℕ → List ℕ
remove x [] = []
remove x (y ∷ ys) = if x == y then ys else y ∷ remove x ys

abbrev pub released : Bool → ℕ → Held → Held
released true conn held = record held {
  taken_slots = held.taken_slots - 1;
  serving = remove conn held.serving;
  served = conn ∷ held.served;
}
released false conn held = held

-- The deferred function of the goroutine for a connection.
unfoldable pub release : ℕ → Held → Held
release conn held = released (is_in conn held.serving) conn held

pub record Listeners : Type 0 where
  pub held : Held
  -- The listeners whose loop accepts no more.
  pub ended : List ℕ

abbrev pub started : Listeners
started = record { held = idle; ended = [] }

-- What `Accept` of a listener gives, and between those the ends of the goroutines.
pub data Event : Type 0 where
  accepts : (listener conn : ℕ) → Event
  -- With the context done or not.
  fails : (listener : ℕ) (is_done : Bool) → Event
  ends : (conn : ℕ) → Event

abbrev pub accept_tcp : ℕ → ℕ → Listeners → Listeners
accept_tcp capacity conn s = record s { held = admit capacity conn s.held }

abbrev pub stop_accepting : ℕ → Listeners → Listeners
stop_accepting listener s = record s { ended = listener ∷ s.ended }

-- A turn. A loop that accepts no more does nothing.
abbrev pub take_turn : ℕ → Event → Listeners → Listeners
take_turn capacity (accepts listener conn) s =
    if is_in listener s.ended then s else accept_tcp capacity conn s
take_turn capacity (fails listener is_done) s =
    if is_in listener s.ended then s else stop_accepting listener s
take_turn capacity (ends conn) s = record s { held = release conn s.held }

unfoldable pub accept_all : ℕ → List Event → Listeners → Listeners
unfolding admit release
accept_all capacity [] s = s
accept_all capacity (event ∷ events) s = accept_all capacity events (take_turn capacity event s)

-- The listeners of the server that offer their error to `errCh`, of those that fail after the
-- given ones.
unfoldable pub offered : List Event → List ℕ → List ℕ
offered [] failed = []
offered (fails listener is_done ∷ events) failed =
    let rest = offered events (listener ∷ failed) in
    if is_done || is_in listener failed then rest else listener ∷ rest
offered (accepts listener conn ∷ events) failed = offered events failed
offered (ends conn ∷ events) failed = offered events failed
