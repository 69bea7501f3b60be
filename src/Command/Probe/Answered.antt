-- ===== src/Command/Probe/Answered.antt =====
-- A probe and the server that answers it, over the frames between them.
use mule.Base.{
  ◌≡◌, ap, ◌∙◌, ◌==◌, Text, true, not, ◌&&◌, [], ◌∷◌, Option, none, some, if◌then◌else◌, Result, ok,
  arith, ◌⊎◌, inl, inr,
}
use mule.Protocol.Frame.{
  Frame, IoError, Error, type_ok, type_error, error_dial_failed, error_overloaded,
  error_unauthorized, direction_forward, direction_reverse,
}
use mule.Protocol.Stream.{Writer, done}
use mule.Protocol.Encode.{write_frame}
use mule.Protocol.RoundTrip.{carried, well_formed}
use mule.Tunnel.{received, received-carried}
use mule.Runtime.Environment.{Environment, run_in, sent_frames}
use mule.Server.Settings.{Config}
use mule.Server.Policy.{forward_target, reverse_allowed}
use mule.Server.Streams.{answer, handle_probe, handle_probe_stream}
use mule.Server.Streams
use mule.Command.Probe.{
  Probe, probe_frame, Calls, ProbeResult, rejected, reachable, judge, run_probe,
}

-- What a forward probe comes to: the server's own target must answer, within its pending dials.
abbrev pub target_result : Environment → Option Text → ProbeResult
target_result env none = rejected error_unauthorized
target_result env (some target) =
    if not env.free
    then rejected error_overloaded
    else if env.connects
    then reachable
    else rejected error_dial_failed

-- What a probe should tell, by the server's configuration.
abbrev pub told : Config → Environment → Probe → ProbeResult
told cfg env p =
    if p.direction == direction_forward
    then target_result env (forward_target cfg p.agent_id p.service)
    else if p.direction == direction_reverse && reverse_allowed cfg p.agent_id p.service
    then reachable
    else rejected error_unauthorized

abbrev pub answer_of : ProbeResult → Frame
answer_of reachable = answer type_ok 0
answer_of (rejected code) = answer type_error code
answer_of r = answer type_error error_unauthorized

abbrev pub with_frame : Environment → Result Error Frame → Environment
with_frame env frame = record env { frame = frame }

probe_answer :
    (cfg : Config) (env : Environment) (p : Probe)
    → sent_frames
        (run_in (with_frame env (ok (probe_frame p))) (handle_probe_stream cfg p.agent_id))
      ≡ answer_of (told cfg env p) ∷ []
unfolding handle_probe_stream Streams.probe_frame handle_probe
probe_answer cfg env p = ground arith

answer-well_formed :
    (cfg : Config) (env : Environment) (p : Probe) → well_formed (answer_of (told cfg env p)) ≡ true
answer-well_formed cfg env p = ground arith

judge-answer :
    (cfg : Config) (env : Environment) (p : Probe)
    → judge (ok (carried (answer_of (told cfg env p)))) ≡ told cfg env p
judge-answer cfg env p = ground arith

probe-well_formed :
    (p : Probe)
    → (p.direction ≡ direction_forward) ⊎ (p.direction ≡ direction_reverse)
    → well_formed (probe_frame p) ≡ true
probe-well_formed p (inl e) = rw e
probe-well_formed p (inr e) = rw e

-- Calls in which nothing fails, and what is read.
abbrev pub answered_by : Result Error Frame → Calls
answered_by response = record {
  dials = λ name. true;
  opens = true;
  writes = true;
  response = response;
}

-- A probe that gets through tells what the server's configuration says: reachable if the service
-- has a target for this agent which a slot and the target's answer let the server reach, or is a
-- reverse service of it, and otherwise rejected with the code for what it lacks; that is the one
-- frame the server sends.
pub run_probe-told :
    (cfg : Config) (env : Environment) (p : Probe) (w v : Writer) (rest rest' : Text)
    (failure failure' : IoError)
    → (p.direction ≡ direction_forward) ⊎ (p.direction ≡ direction_reverse)
    → w.sent ≡ []
    → (write_frame w (probe_frame p)).1 ≡ done
    → v.sent ≡ []
    → (write_frame v (answer_of (told cfg env p))).1 ≡ done
    → (sent_frames (
          run_in
            (with_frame env (received w (probe_frame p) rest failure))
            (handle_probe_stream cfg p.agent_id))
        ≡ answer_of (told cfg env p) ∷ [])
      × (run_probe p (answered_by (received v (answer_of (told cfg env p)) rest' failure'))
          ≡ told cfg env p)
run_probe-told cfg env p w v rest rest' failure failure' towards fresh_w done_w fresh_v done_v =
    let asked =
      received-carried w (probe_frame p) rest failure fresh_w (probe-well_formed p towards)
        done_w in
    let back =
      received-carried v (answer_of (told cfg env p)) rest' failure' fresh_v
        (answer-well_formed cfg env p) done_v in
    (
      ap (λ f. sent_frames (run_in (with_frame env f) (handle_probe_stream cfg p.agent_id))) asked
          ∙ probe_answer cfg env p,
      ap (λ f. run_probe p (answered_by f)) back ∙ judge-answer cfg env p,
    )
