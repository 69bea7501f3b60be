-- ===== src/Listening/Runs.antt =====
-- Three listeners over two slots, and the theorem at them.
use mule.Base.{◌≡◌, refl, true, false, [], ◌∷◌, List, arith}
use mule.Listening.{admit, release, started, Event, accepts, fails, ends, accept_all, offered}
use mule.Listening.Settled.{Settles, accept_all-Settles}

abbrev events : List Event
events =
    accepts 1 10
    ∷ accepts 2 20
    ∷ accepts 1 11
    ∷ fails 1 false
    ∷ accepts 1 12
    ∷ ends 10
    ∷ accepts 3 30
    ∷ fails 2 true
    ∷ fails 3 false
    ∷ ends 20
    ∷ []

slots_taken : (accept_all 2 events started).held.taken_slots ≡ 1
unfolding accept_all admit release
slots_taken = refl

rejected : (accept_all 2 events started).held.rejected ≡ 11 ∷ []
unfolding accept_all admit release
rejected = refl

served : (accept_all 2 events started).held.served ≡ 20 ∷ 10 ∷ []
unfolding accept_all admit release
served = refl

errors_offered : offered events [] ≡ 1 ∷ 3 ∷ []
unfolding offered
errors_offered = refl

accept_all-Settles_example : Settles 2 11 events started
accept_all-Settles_example = accept_all-Settles 2 11 events started (refl, omega arith)
