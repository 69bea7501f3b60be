-- ===== src/Server/Accepting/Acceptor.antt =====
-- internal/server/server.go: the goroutine of `Run` that accepts QUIC connections for the loop.
use mule.Base.{ℕ, Bool, true, false, [], ◌∷◌, List, Option, none, some, if◌then◌else◌}
use mule.Server.Accepting.{Peer, Event, arrives, accept_fails}

-- What a turn meets: what `Accept` gives, `none` being an error, and whether the loop takes it or
-- the context is done first.
pub record AcceptTurn : Type 0 where
  pub accepted : Option Peer
  pub is_taken : Bool

pub record Acceptor : Type 0 where
  pub sent : List (Option Peer)
  pub closed : List ℕ
  pub has_returned : Bool

abbrev pub stop_with : List (Option Peer) → List ℕ → Acceptor
stop_with sent closed = record { sent = sent; closed = closed; has_returned = true }

abbrev pub close_unsent : Option Peer → Acceptor
close_unsent none = stop_with [] []
close_unsent (some peer) = stop_with [] (peer.conn ∷ [])

abbrev pub after_sent : Option Peer → Acceptor → Acceptor
after_sent none next = stop_with (none ∷ []) []
after_sent (some peer) next = record next { sent = some peer ∷ next.sent }

unfoldable pub accept_quic : List AcceptTurn → Acceptor
accept_quic [] = record { sent = []; closed = []; has_returned = false }
accept_quic (turn ∷ turns) =
    let next = accept_quic turns in
    if turn.is_taken then after_sent turn.accepted next else close_unsent turn.accepted

-- The events of the loop that what is sent comes to, with the context done or not.
abbrev pub sent_events : Bool → List (Option Peer) → List Event
sent_events is_done [] = []
sent_events is_done (none ∷ sent) = accept_fails is_done ∷ sent_events is_done sent
sent_events is_done (some peer ∷ sent) = arrives peer ∷ sent_events is_done sent
