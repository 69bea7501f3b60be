-- ===== src/Command/Probe/Runs.antt =====
-- A server of one agent, probed for its services.
use mule.Base.{◌≡◌, inl, refl, false, [], ◌∷◌, none, codes, pos, length, lookup, ok}
use mule.Protocol.Frame.{
  eof, error_dial_failed, error_unauthorized, direction_forward, direction_reverse,
}
use mule.Protocol.Stream.{Writer, done, write_full}
use mule.Protocol.Encode.{append_string, append_strings, open_body, frame_body, write_frame}
use mule.Tunnel.{received}
use mule.Runtime.Environment.{Environment, smooth, run_in, sent_frames}
use mule.Server.Settings.{Config}
use mule.Server.Policy.{find_agent}
use mule.Server.Streams.{handle_probe_stream}
use mule.Command.Probe.{Probe, probe_frame, reachable, rejected, run_probe, no_connection}
use mule.Command.Probe.Answered.{told, answer_of, with_frame, answered_by, run_probe-told}

abbrev server : Config
server = record {
  listen_udp = codes ":4400";
  agents =
      record {
        id = codes "gpu-1";
        secret_file = codes "s";
        forward = (codes "ssh", codes "127.0.0.1:22") ∷ [];
        reverse = (codes "web", codes ":8080") ∷ [];
      }
      ∷ [];
  handshake_timeout = pos 1;
  idle_timeout = pos 1;
  dial_timeout = pos 1;
  max_streams = pos 1;
  max_pending_dials = pos 1;
  keep_alive = pos 1;
}

abbrev probe : Probe
probe = record {
  server = codes "h:4400";
  agent_id = codes "gpu-1";
  direction = direction_forward;
  service = codes "ssh";
  secret = codes "s";
}

abbrev writer : Writer
writer = record {
  reply = λ _ p. record { count = pos (length p); failure = none };
  calls = 0;
  sent = [];
}

-- The target does not answer.
abbrev unreachable : Environment
unreachable = record (smooth (ok (probe_frame probe)) (record { a_to_b = 0; b_to_a = 0 })) {
  connects = false;
}

refused_dial : told server unreachable probe ≡ rejected error_dial_failed
unfolding find_agent lookup
refused_dial = refl

refused_service :
    told server unreachable (record probe { service = codes "web" }) ≡ rejected error_unauthorized
unfolding find_agent lookup
refused_service = refl

reverse_allowed_too :
    told server unreachable (record probe { direction = direction_reverse; service = codes "web" })
    ≡ reachable
unfolding find_agent lookup
reverse_allowed_too = refl

asked : (write_frame writer (probe_frame probe)).1 ≡ done
unfolding write_frame write_full frame_body open_body append_strings append_string
asked = refl

answered : (write_frame writer (answer_of (told server unreachable probe))).1 ≡ done
unfolding write_frame write_full frame_body open_body append_strings append_string find_agent lookup
answered = refl

run_probe-told_example :
    (sent_frames (
        run_in
          (with_frame unreachable (received writer (probe_frame probe) [] eof))
          (handle_probe_stream server (codes "gpu-1")))
      ≡ answer_of (told server unreachable probe) ∷ [])
    × (run_probe probe
          (answered_by (received writer (answer_of (told server unreachable probe)) [] eof))
        ≡ told server unreachable probe)
run_probe-told_example =
    run_probe-told server unreachable probe writer writer [] [] eof eof (inl refl) refl asked refl
      answered

nobody :
    run_probe probe (record (answered_by (ok (probe_frame probe))) { dials = λ name. false })
    ≡ no_connection
nobody = refl
