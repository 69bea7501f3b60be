-- ===== src/Server/Verdicts.antt =====
-- What a stream of an agent is answered, as a table of decisions.
use mule.Base.{
  ℕ, ◌≡◌, Text, Bool, not, ◌&&◌, [], ◌∷◌, List, Option, none, some, if◌then◌else◌, ◌==◌, Result, ok,
  err, arith,
}
use mule.Protocol.Frame.{
  Frame, Error, type_open, type_ok, type_error, type_probe, error_dial_failed, error_overloaded,
  error_unauthorized, direction_forward, direction_reverse,
}
use mule.Runtime.Program.{bytes_client_to_target, bytes_target_to_client}
use mule.Runtime.Environment.{Environment, run_in, sent_frames, dialled_targets, joins, counted}
use mule.Server.Settings.{Config}
use mule.Server.Policy.{forward_target, reverse_allowed}
use mule.Server.Reverse.{Accepted, open_frame, answered_ok, handle_reverse_tcp, serve_reverse}
use mule.Server.Streams.{answer, handle_probe, serve_frame, handle_agent_stream}

-- Refused with a code, with the target that was dialled; a probe answered by OK; or joined to a
-- target.
pub data Verdict : Type 0 where
  refused : ℕ → List Text → Verdict
  probed : List Text → Verdict
  joined : Text → Verdict

-- A target is reached if a slot is free and it answers; `Reached` is what then becomes of it.
abbrev pub reach : Environment → (Text → Verdict) → Option Text → Verdict
reach env then_ none = refused error_unauthorized []
reach env then_ (some target) =
    if not env.free
    then refused error_overloaded []
    else if env.connects
    then then_ target
    else refused error_dial_failed (target ∷ [])

module _ (cfg : Config) (agent_id : Text) (env : Environment) where
  abbrev pub frame_verdict : Result Error Frame → Verdict
  frame_verdict (err e) = refused error_unauthorized []
  frame_verdict (ok frame) =
      let target = forward_target cfg agent_id frame.service in
      if frame.type == type_open && frame.direction == direction_forward
      then reach env joined target
      else if frame.type == type_probe && frame.direction == direction_forward
      then reach env (λ t. probed (t ∷ [])) target
      else if frame.type == type_probe
          && (frame.direction == direction_reverse && reverse_allowed cfg agent_id frame.service)
      then probed []
      else refused error_unauthorized []

  abbrev pub verdict : Verdict
  verdict = frame_verdict env.frame

abbrev pub verdict_frame : Verdict → Frame
verdict_frame (refused code ts) = answer type_error code
verdict_frame (probed ts) = answer type_ok 0
verdict_frame (joined t) = answer type_ok 0

abbrev pub verdict_targets : Verdict → List Text
verdict_targets (refused code ts) = ts
verdict_targets (probed ts) = ts
verdict_targets (joined t) = t ∷ []

-- The connections are joined unless the OK cannot be written.
abbrev pub verdict_joins : Environment → Verdict → ℕ
verdict_joins env (joined t) = if env.writes then 1 else 0
verdict_joins env v = 0

-- Whatever its environment, a stream of an agent gets exactly one answer, that of the verdict,
-- with exactly its targets dialled; it is joined to a target exactly if the verdict is that and
-- the OK could be written, and the bytes counted each way are then those that went through, and
-- otherwise none.
pub handle_agent_stream-verdict :
    (cfg : Config) (agent_id : Text) (env : Environment)
    → (sent_frames (run_in env (handle_agent_stream cfg agent_id))
        ≡ verdict_frame (verdict cfg agent_id env) ∷ [])
      × (dialled_targets (run_in env (handle_agent_stream cfg agent_id))
          ≡ verdict_targets (verdict cfg agent_id env))
      × (joins (run_in env (handle_agent_stream cfg agent_id))
          ≡ verdict_joins env (verdict cfg agent_id env))
      × (counted bytes_client_to_target (run_in env (handle_agent_stream cfg agent_id))
          ≡ (if verdict_joins env (verdict cfg agent_id env) == 1 then env.count.b_to_a else 0))
      × (counted bytes_target_to_client (run_in env (handle_agent_stream cfg agent_id))
          ≡ (if verdict_joins env (verdict cfg agent_id env) == 1 then env.count.a_to_b else 0))
unfolding handle_agent_stream serve_frame handle_probe
handle_agent_stream-verdict cfg agent_id env =
    (ground arith, ground arith, ground arith, ground arith, ground arith)

abbrev pub is_answered : Environment → Bool
is_answered env = env.free && (env.present && (env.opens && (env.writes && answered_ok env.frame)))

-- Whatever its environment, a connection to a reverse listener makes the server send exactly one
-- frame, the OPEN of its service, if there is a slot, the agent is connected and a stream opens,
-- and none otherwise; nothing is dialled; it is joined to the stream exactly if that frame was
-- written and answered by OK, and the bytes counted each way are then those that went through, and
-- otherwise none.
pub serve_reverse-verdict :
    (tcp : Accepted) (env : Environment)
    → (sent_frames (run_in env (serve_reverse tcp))
        ≡ (if env.free && (env.present && env.opens) then open_frame tcp ∷ [] else []))
      × (dialled_targets (run_in env (serve_reverse tcp)) ≡ [])
      × (joins (run_in env (serve_reverse tcp)) ≡ (if is_answered env then 1 else 0))
      × (counted bytes_client_to_target (run_in env (serve_reverse tcp))
          ≡ (if is_answered env then env.count.a_to_b else 0))
      × (counted bytes_target_to_client (run_in env (serve_reverse tcp))
          ≡ (if is_answered env then env.count.b_to_a else 0))
unfolding serve_reverse handle_reverse_tcp
serve_reverse-verdict tcp env =
    (ground arith, ground arith, ground arith, ground arith, ground arith)
