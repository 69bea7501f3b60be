-- ===== src/Runtime/Environment.antt =====
-- A goroutine run to its return by an environment that settles every result beforehand, and what
-- the run leaves behind.
use mule.Base.{ℕ, ◌+◌, if◌then◌else◌, Text, Bool, Result, List, [], ◌∷◌}
use mule.Protocol.Frame.{Frame, Error}
use mule.Runtime.Program.{
  Count, Counter, tcp_connections_total, streams_total, stream_errors_total, target_dial_errors,
  bytes_client_to_target, bytes_target_to_client, Action, Answer, try_slot, free_slot, raise, lower,
  add, receive, send, set_deadline, clear_deadline, close_stream, dial, close_tcp, find_peer,
  open_stream, accept_stream, close_peer, pipe, Program, finish, act, Event, did, Run, returned,
  then_run,
}

pub record Environment : Type 0 where
  -- Whether a slot is free, the peer is there, the stream opens, the target answers, and a frame
  -- can be written.
  pub free : Bool
  pub present : Bool
  pub opens : Bool
  pub connects : Bool
  pub writes : Bool
  -- What `ReadFrame` gives, and what `Pipe` counts.
  pub frame : Result Error Frame
  pub count : Count

-- One in which nothing fails.
abbrev pub smooth : Result Error Frame → Count → Environment
smooth frame count = record {
  free = Bool.true;
  present = Bool.true;
  opens = Bool.true;
  connects = Bool.true;
  writes = Bool.true;
  frame = frame;
  count = count;
}

abbrev pub respond : Environment → (a : Action) → Answer a
respond env (try_slot s) = env.free
respond env (free_slot s) = tt
respond env (raise g) = tt
respond env (lower g) = tt
respond env (add c n) = tt
respond env receive = env.frame
respond env (send f) = env.writes
respond env set_deadline = tt
respond env clear_deadline = tt
respond env close_stream = tt
respond env (dial t) = env.connects
respond env close_tcp = tt
respond env find_peer = env.present
respond env open_stream = env.opens
respond env accept_stream = env.opens
respond env (close_peer code) = tt
respond env pipe = env.count

abbrev pub run_in : Environment → Program → List Event
run_in env finish = []
run_in env (act a k) = did a (respond env a) ∷ run_in env (k (respond env a))

-- Every goroutine returns in every environment.
pub run_in-returns : (env : Environment) (p : Program) → Run p (run_in env p)
run_in-returns env finish = returned
run_in-returns env (act a k) = then_run (respond env a) (run_in-returns env (k (respond env a)))

-- The frames sent, the targets dialled, how often the connections were joined, and what a counter
-- has grown by.
abbrev pub sent_frames : List Event → List Frame
sent_frames [] = []
sent_frames (did (send f) r ∷ es) = f ∷ sent_frames es
sent_frames (did a r ∷ es) = sent_frames es

abbrev pub dialled_targets : List Event → List Text
dialled_targets [] = []
dialled_targets (did (dial t) r ∷ es) = t ∷ dialled_targets es
dialled_targets (did a r ∷ es) = dialled_targets es

abbrev pub joins : List Event → ℕ
joins [] = 0
joins (did pipe r ∷ es) = 1 + joins es
joins (did a r ∷ es) = joins es

abbrev pub same_counter : Counter → Counter → Bool
same_counter tcp_connections_total tcp_connections_total = Bool.true
same_counter streams_total streams_total = Bool.true
same_counter stream_errors_total stream_errors_total = Bool.true
same_counter target_dial_errors target_dial_errors = Bool.true
same_counter bytes_client_to_target bytes_client_to_target = Bool.true
same_counter bytes_target_to_client bytes_target_to_client = Bool.true
same_counter c d = Bool.false

abbrev pub counted : Counter → List Event → ℕ
counted c [] = 0
counted c (did (add d n) r ∷ es) = if same_counter c d then n + counted c es else counted c es
counted c (did a r ∷ es) = counted c es
