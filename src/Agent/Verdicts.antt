-- ===== src/Agent/Verdicts.antt =====
-- What becomes of a client of the agent and of a stream of the server, as tables of decisions.
use mule.Base.{
  ◌≡◌, Text, Bool, false, not, ◌&&◌, [], ◌∷◌, List, Option, none, some, lookup, if◌then◌else◌, ◌==◌,
  Result, ok, err, arith,
}
use mule.Protocol.Frame.{
  Frame, Error, type_open, type_ok, type_error, error_dial_failed, error_unauthorized,
  direction_reverse,
}
use mule.Runtime.Program.{bytes_client_to_target, bytes_target_to_client}
use mule.Runtime.Environment.{Environment, run_in, sent_frames, dialled_targets, joins, counted}
use mule.Agent.Settings.{Config}
use mule.Agent.Streams.{
  Accepted, answer, open_frame, refuses, handle_forward_tcp, serve_forward, serve_frame,
  handle_reverse_stream,
}

-- A client gets as far as the stream, and is joined to it if the server answers by OK.
abbrev pub gets_stream : Environment → Bool
gets_stream env = env.free && (env.present && env.opens)

abbrev pub is_served : Environment → Bool
is_served env = gets_stream env && (env.writes && not (refuses env.frame))

-- Whatever its environment, a client's connection makes the agent send exactly one frame, the OPEN
-- of its service, if there is a slot, a connection and a stream, and none otherwise; nothing is
-- dialled; the client is joined to the stream exactly if that frame was written and answered by
-- OK, and the bytes counted each way are then those that went through, and otherwise none.
pub serve_forward-verdict :
    (cfg : Config) (tcp : Accepted) (env : Environment)
    → (sent_frames (run_in env (serve_forward cfg tcp))
        ≡ (if gets_stream env then open_frame cfg tcp ∷ [] else []))
      × (dialled_targets (run_in env (serve_forward cfg tcp)) ≡ [])
      × (joins (run_in env (serve_forward cfg tcp)) ≡ (if is_served env then 1 else 0))
      × (counted bytes_client_to_target (run_in env (serve_forward cfg tcp))
          ≡ (if is_served env then env.count.a_to_b else 0))
      × (counted bytes_target_to_client (run_in env (serve_forward cfg tcp))
          ≡ (if is_served env then env.count.b_to_a else 0))
unfolding serve_forward handle_forward_tcp
serve_forward-verdict cfg tcp env =
    (ground arith, ground arith, ground arith, ground arith, ground arith)

-- The target that a stream of the server is for.
abbrev pub asked_target : Config → Result Error Frame → Option Text
asked_target cfg (err e) = none
asked_target cfg (ok frame) =
    if frame.type == type_open && frame.direction == direction_reverse
    then lookup frame.service cfg.reverse
    else none

abbrev pub target_answer : Environment → Option Text → Frame
target_answer env none = answer type_error error_unauthorized
target_answer env (some target) =
    if env.connects then answer type_ok 0 else answer type_error error_dial_failed

abbrev pub targets : Option Text → List Text
targets none = []
targets (some target) = target ∷ []

abbrev pub target_joins : Environment → Option Text → Bool
target_joins env none = false
target_joins env (some target) = env.connects && env.writes

-- Whatever its environment, a stream of the server gets exactly one answer: OK if it is an OPEN of
-- a configured reverse service whose target answers, and the error for what it lacks otherwise.
-- Exactly that target is dialled, and joined if it answers and the OK could be written; the bytes
-- counted each way are then those that went through, and otherwise none.
pub handle_reverse_stream-verdict :
    (cfg : Config) (env : Environment)
    → (sent_frames (run_in env (handle_reverse_stream cfg))
        ≡ target_answer env (asked_target cfg env.frame) ∷ [])
      × (dialled_targets (run_in env (handle_reverse_stream cfg))
          ≡ targets (asked_target cfg env.frame))
      × (joins (run_in env (handle_reverse_stream cfg))
          ≡ (if target_joins env (asked_target cfg env.frame) then 1 else 0))
      × (counted bytes_client_to_target (run_in env (handle_reverse_stream cfg))
          ≡ (if target_joins env (asked_target cfg env.frame) then env.count.b_to_a else 0))
      × (counted bytes_target_to_client (run_in env (handle_reverse_stream cfg))
          ≡ (if target_joins env (asked_target cfg env.frame) then env.count.a_to_b else 0))
unfolding handle_reverse_stream serve_frame
handle_reverse_stream-verdict cfg env =
    (ground arith, ground arith, ground arith, ground arith, ground arith)
