-- ===== src/Runtime/Program.antt =====
-- What a goroutine that serves one connection or one stream does, as the tree of its actions: an
-- action of which the code uses the result branches on that result, which the environment
-- chooses. The log lines are left out.
use mule.Base.{ℕ, Text, Bool, Result, List, [], ◌∷◌}
use mule.Protocol.Frame.{Frame, Error}

-- The channels of fixed capacity that serve as semaphores.
pub data Slot : Type 0 where
  dials probes connections : Slot

-- The gauges of internal/metrics, which go up and down.
pub data Gauge : Type 0 where
  active_tcp_connections active_quic_streams : Gauge

-- Its counters, which only grow.
pub data Counter : Type 0 where
  tcp_connections_total streams_total stream_errors_total target_dial_errors : Counter
  bytes_client_to_target bytes_target_to_client : Counter

-- `transport.Count`.
pub record Count : Type 0 where
  pub a_to_b : ℕ
  pub b_to_a : ℕ

pub data Action : Type 0 where
  -- `select { case slot <- struct{}{}: … default: … }`, and `<-slot`.
  try_slot free_slot : Slot → Action
  -- `gauge.Add(1)`, `gauge.Add(-1)` and `counter.Add(n)`.
  raise lower : Gauge → Action
  add : Counter → ℕ → Action
  -- `protocol.ReadFrame(stream)` and `protocol.WriteFrame(stream, f)`.
  receive : Action
  send : Frame → Action
  -- `stream.SetDeadline(now + HandshakeTimeout)` and `stream.SetDeadline(time.Time{})`.
  set_deadline clear_deadline : Action
  close_stream : Action
  -- `DialContext(ctx, "tcp", target)` and `Close` of a TCP connection.
  dial : Text → Action
  close_tcp : Action
  -- The connection to the other side, if there is one, with `OpenStreamSync` and `AcceptStream`.
  find_peer open_stream accept_stream : Action
  -- `conn.CloseWithError(code, …)`.
  close_peer : ℕ → Action
  -- `transport.Pipe`.
  pipe : Action

-- What the code gets back: whether it succeeded, unless it is more.
abbrev pub Answer : Action → Type 0
Answer (try_slot s) = Bool
Answer (free_slot s) = Unit
Answer (raise g) = Unit
Answer (lower g) = Unit
Answer (add c n) = Unit
Answer receive = Result Error Frame
Answer (send f) = Bool
Answer set_deadline = Unit
Answer clear_deadline = Unit
Answer close_stream = Unit
Answer (dial t) = Bool
Answer close_tcp = Unit
Answer find_peer = Bool
Answer open_stream = Bool
Answer accept_stream = Bool
Answer (close_peer code) = Unit
Answer pipe = Count

pub data Program : Type 0 where
  -- The goroutine has returned.
  finish : Program
  act : (a : Action) → (Answer a → Program) → Program

infixr 6 ◌then◌
-- An action whose result the code throws away.
abbrev pub ◌then◌ : Action → Program → Program
a then p = act a (λ _. p)

pub data Event : Type 0 where
  did : (a : Action) → Answer a → Event

-- What the goroutine can be seen to do up to any point.
pub data Trace : Program → List Event → Type 0 where
  cut : {p : Program} → Trace p []
  next :
      {a : Action} {k : Answer a → Program} {es : List Event} (r : Answer a)
      → Trace (k r) es
      → Trace (act a k) (did a r ∷ es)

-- The same, up to its return.
pub data Run : Program → List Event → Type 0 where
  returned : Run finish []
  then_run :
      {a : Action} {k : Answer a → Program} {es : List Event} (r : Answer a)
      → Run (k r) es
      → Run (act a k) (did a r ∷ es)
