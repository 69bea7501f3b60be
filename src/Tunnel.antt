-- ===== src/Tunnel.antt =====
-- internal/agent/agent.go and internal/server/server.go together, over the frames of
-- internal/protocol/control.go: what one side writes is what the other reads.
mod Runs
use mule.Base.{
  ◌≡◌, refl, ap, ◌∙◌, Text, Bool, true, [], ◌∷◌, ◌++◌, List, some, lookup, ◌>>=◌, Result, ok, arith,
}
use mule.Protocol.Frame.{Frame, Error, IoError, type_ok}
use mule.Protocol.Stream.{Reader, Writer, Outcome, done}
use mule.Protocol.Encode.{write_frame}
use mule.Protocol.Decode.{read_frame}
use mule.Protocol.RoundTrip.{carried, well_formed}
use mule.Protocol.Receive.{read_frame-write_frame}
use mule.Runtime.Program.{Count}
use mule.Runtime.Environment.{smooth, run_in, sent_frames, dialled_targets, joins}
use mule.Server.Settings as ServerSettings
use mule.Server.Policy.{forward_target}
use mule.Server.Streams.{handle_agent_stream}
use mule.Server.Reverse.{serve_reverse}
use mule.Server.Reverse as Listener
use mule.Server.Verdicts.{handle_agent_stream-verdict, serve_reverse-verdict}
use mule.Agent.Settings as AgentSettings
use mule.Agent.Streams.{answer, serve_forward, handle_reverse_stream}
use mule.Agent.Streams as Client
use mule.Agent.Verdicts.{serve_forward-verdict, handle_reverse_stream-verdict}

-- What `ReadFrame` gives on a stream that carries what `WriteFrame` sent, then `rest`, and then
-- fails.
abbrev pub received : Writer → Frame → Text → IoError → Result Error Frame
received w f rest failure =
    read_frame (record { incoming = (write_frame w f).0.sent ++ rest; failure = failure })
    >>= λ read. ok read.0

pub received-carried :
    (w : Writer) (f : Frame) (rest : Text) (failure : IoError)
    → w.sent ≡ []
    → well_formed f ≡ true
    → (write_frame w f).1 ≡ done
    → received w f rest failure ≡ ok (carried f)
received-carried w f rest failure fresh well d =
    rw (read_frame-write_frame w f failure rest fresh well d)

-- The server's side of an OPEN in the forward direction, and the agent's of one in the reverse
-- direction, when nothing fails.
forward_served :
    (server : ServerSettings.Config) (agent : AgentSettings.Config) (tcp : Client.Accepted)
    (count : Count) (target : Text)
    → forward_target server agent.agent_id tcp.service ≡ some target
    → let run =
        run_in
          (smooth (ok (Client.open_frame agent tcp)) count)
          (handle_agent_stream server agent.agent_id) in
      (dialled_targets run ≡ target ∷ [])
      × (sent_frames run ≡ answer type_ok 0 ∷ [])
      × (joins run ≡ 1)
forward_served server agent tcp count target target_is =
    let (sends, dials, joined, sent_back, sent_on) =
      handle_agent_stream-verdict server agent.agent_id
        (smooth (ok (Client.open_frame agent tcp)) count) in
    (dials ∙ rw target_is, sends ∙ rw target_is, joined ∙ rw target_is)

reverse_served :
    (agent : AgentSettings.Config) (tcp : Listener.Accepted) (count : Count) (target : Text)
    → lookup tcp.service agent.reverse ≡ some target
    → let run =
        run_in (smooth (ok (Listener.open_frame tcp)) count) (handle_reverse_stream agent) in
      (dialled_targets run ≡ target ∷ [])
      × (sent_frames run ≡ answer type_ok 0 ∷ [])
      × (joins run ≡ 1)
reverse_served agent tcp count target target_is =
    let (sends, dials, joined, sent_back, sent_on) =
      handle_reverse_stream-verdict agent (smooth (ok (Listener.open_frame tcp)) count) in
    (dials ∙ rw target_is, sends ∙ rw target_is, joined ∙ rw target_is)

module _ (agent : AgentSettings.Config) (w v : Writer) (rest rest' : Text)
    (failure failure' : IoError) (count count' : Count) (target : Text) where
  -- A client of the agent for a service that the server's configuration gives this agent reaches
  -- the target of that service: if nothing fails on either side and both frames are written, the
  -- server dials exactly that target and answers by OK, and both sides join their connections.
  pub forward_tunnel :
      (server : ServerSettings.Config) (tcp : Client.Accepted)
      → w.sent ≡ []
      → (write_frame w (Client.open_frame agent tcp)).1 ≡ done
      → v.sent ≡ []
      → (write_frame v (answer type_ok 0)).1 ≡ done
      → forward_target server agent.agent_id tcp.service ≡ some target
      → let opened = smooth (received w (Client.open_frame agent tcp) rest failure) count in
        let answered = smooth (received v (answer type_ok 0) rest' failure') count' in
        (dialled_targets (run_in opened (handle_agent_stream server agent.agent_id)) ≡ target ∷ [])
        × (sent_frames (run_in opened (handle_agent_stream server agent.agent_id))
            ≡ answer type_ok 0 ∷ [])
        × (joins (run_in opened (handle_agent_stream server agent.agent_id)) ≡ 1)
        × (joins (run_in answered (serve_forward agent tcp)) ≡ 1)
  forward_tunnel server tcp fresh_w done_w fresh_v done_v target_is =
      let opens =
        received-carried w (Client.open_frame agent tcp) rest failure fresh_w refl done_w in
      let oks = received-carried v (answer type_ok 0) rest' failure' fresh_v refl done_v in
      let (dials, sends, joined) = forward_served server agent tcp count target target_is in
      rw (opens, oks)
        (
          dials,
          sends,
          joined,
          (serve_forward-verdict agent tcp (smooth (ok (answer type_ok 0)) count')).2,
        )

  -- A connection to a reverse listener of the server reaches the target that the agent's own
  -- configuration gives for that service: if nothing fails on either side and both frames are
  -- written, the agent dials exactly that target and answers by OK, and both sides join their
  -- connections.
  pub reverse_tunnel :
      (tcp : Listener.Accepted)
      → w.sent ≡ []
      → (write_frame w (Listener.open_frame tcp)).1 ≡ done
      → v.sent ≡ []
      → (write_frame v (answer type_ok 0)).1 ≡ done
      → lookup tcp.service agent.reverse ≡ some target
      → let opened = smooth (received w (Listener.open_frame tcp) rest failure) count in
        let answered = smooth (received v (answer type_ok 0) rest' failure') count' in
        (dialled_targets (run_in opened (handle_reverse_stream agent)) ≡ target ∷ [])
        × (sent_frames (run_in opened (handle_reverse_stream agent)) ≡ answer type_ok 0 ∷ [])
        × (joins (run_in opened (handle_reverse_stream agent)) ≡ 1)
        × (joins (run_in answered (serve_reverse tcp)) ≡ 1)
  reverse_tunnel tcp fresh_w done_w fresh_v done_v target_is =
      let opens = received-carried w (Listener.open_frame tcp) rest failure fresh_w refl done_w in
      let oks = received-carried v (answer type_ok 0) rest' failure' fresh_v refl done_v in
      let (dials, sends, joined) = reverse_served agent tcp count target target_is in
      rw (opens, oks)
        (
          dials,
          sends,
          joined,
          (serve_reverse-verdict tcp (smooth (ok (answer type_ok 0)) count')).2,
        )
