-- ===== src/Listening/Settled.antt =====
-- What becomes of the connections that the listeners accept.
use mule.Base.{ℕ, ◌+◌, ◌≡◌, Bool, true, false, [], ◌∷◌, List, if◌then◌else◌, arith}
use mule.Listening.{
  release, is_in, Listeners, Event, accepts, fails, ends, accept_tcp, stop_accepting, accept_all,
}
use mule.Listening.Kept.{
  count, Fits, settled, admit-Fits, release-Fits, settled-admit, settled-release,
}

-- The connections that the listeners accept: what a listener would give after it has failed is
-- not accepted by anyone.
unfoldable pub accepted : List Event → List ℕ → List ℕ
accepted [] failed = []
accepted (accepts listener conn ∷ events) failed =
    let rest = accepted events failed in if is_in listener failed then rest else conn ∷ rest
accepted (fails listener is_done ∷ events) failed =
    accepted events (if is_in listener failed then failed else listener ∷ failed)
accepted (ends conn ∷ events) failed = accepted events failed

-- Every accepted connection is settled as often as it is accepted, and the slots fit.
abbrev pub Settles : ℕ → ℕ → List Event → Listeners → Type 0
Settles capacity x events s =
    let after = (accept_all capacity events s).held in
    (settled x after ≡ count x (accepted events s.ended) + settled x s.held) × Fits capacity after

-- The two cases of a turn, for a listener that has failed and for one that has not.
Settles-accepts :
    (capacity x conn : ℕ) (events : List Event) (s : Listeners) (failed : Bool)
    → Settles capacity x events s
    → Settles capacity x events (accept_tcp capacity conn s)
    → let after =
        (accept_all capacity events (if failed then s else accept_tcp capacity conn s)).held in
      let rest = accepted events s.ended in
      (settled x after ≡ count x (if failed then rest else conn ∷ rest) + settled x s.held)
      × Fits capacity after
Settles-accepts capacity x conn events s true fails_before h = fails_before
Settles-accepts capacity x conn events s false fails_before (all, fits) =
    let more = settled-admit capacity conn x s.held in (ground arith, fits)

Settles-fails :
    (capacity x listener : ℕ) (events : List Event) (s : Listeners) (failed : Bool)
    → Settles capacity x events s
    → Settles capacity x events (stop_accepting listener s)
    → let after =
        (accept_all capacity events (if failed then s else stop_accepting listener s)).held in
      let rest = accepted events (if failed then s.ended else listener ∷ s.ended) in
      (settled x after ≡ count x rest + settled x s.held) × Fits capacity after
Settles-fails capacity x listener events s true h stopped = h
Settles-fails capacity x listener events s false h stopped = stopped

-- Whatever the listeners give and in whatever order goroutines end, each connection that a
-- listener accepts before it fails is being served, has been served or has been closed, as often
-- as it was accepted; a slot is taken exactly while a goroutine runs, and no more of them run than
-- there are slots.
pub accept_all-Settles :
    (capacity x : ℕ) (events : List Event) (s : Listeners)
    → Fits capacity s.held
    → Settles capacity x events s
unfolding accept_all accepted
accept_all-Settles capacity x [] s h = (omega arith, h)
accept_all-Settles capacity x (accepts listener conn ∷ events) s h =
    Settles-accepts capacity x conn events s (is_in listener s.ended)
      (accept_all-Settles capacity x events s h)
      (accept_all-Settles capacity x events (accept_tcp capacity conn s)
        (admit-Fits capacity conn s.held h))
accept_all-Settles capacity x (fails listener is_done ∷ events) s h =
    Settles-fails capacity x listener events s (is_in listener s.ended)
      (accept_all-Settles capacity x events s h)
      (accept_all-Settles capacity x events (stop_accepting listener s) h)
accept_all-Settles capacity x (ends conn ∷ events) s h =
    let (all, fits) =
      accept_all-Settles capacity x events (record s { held = release conn s.held })
        (release-Fits capacity conn s.held h) in
    let same = settled-release conn x s.held in (omega arith, fits)
