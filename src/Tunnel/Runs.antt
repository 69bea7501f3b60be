-- ===== src/Tunnel/Runs.antt =====
-- A concrete pair of a server and an agent, and the theorems at it.
use mule.Base.{◌≡◌, refl, false, [], ◌∷◌, none, some, codes, length, pos, lookup}
use mule.Protocol.Frame.{eof, type_ok}
use mule.Protocol.Stream.{Writer, done, write_full}
use mule.Protocol.Encode.{append_string, append_strings, open_body, frame_body, write_frame}
use mule.Runtime.Program.{Count}
use mule.Runtime.Environment.{smooth, run_in, sent_frames, dialled_targets, joins}
use mule.Server.Settings as ServerSettings
use mule.Server.Policy.{find_agent, forward_target}
use mule.Server.Streams.{handle_agent_stream}
use mule.Server.Reverse.{serve_reverse}
use mule.Server.Reverse as Listener
use mule.Agent.Settings as AgentSettings
use mule.Agent.Streams.{answer, serve_forward, handle_reverse_stream}
use mule.Agent.Streams as Client
use mule.Tunnel.{received, forward_tunnel, reverse_tunnel}

abbrev server : ServerSettings.Config
server = record {
  listen_udp = codes ":4400";
  agents =
      record {
        id = codes "gpu-1";
        secret_file = codes "s";
        forward = (codes "ssh", codes "127.0.0.1:22") ∷ [];
        reverse = [];
      }
      ∷ [];
  handshake_timeout = pos 1;
  idle_timeout = pos 1;
  dial_timeout = pos 1;
  max_streams = pos 1;
  max_pending_dials = pos 1;
  keep_alive = pos 1;
}

abbrev agent : AgentSettings.Config
agent = record {
  server = codes "h:4400";
  agent_id = codes "gpu-1";
  secret_file = codes "s";
  forward = [];
  reverse = (codes "web", codes "127.0.0.1:80") ∷ [];
  connect_timeout = pos 1;
  handshake_timeout = pos 1;
  idle_timeout = pos 1;
  max_connections = pos 1;
  keep_alive = pos 1;
  reconnect_delay = pos 1;
  send_client_addr = false;
}

abbrev writer : Writer
writer = record {
  reply = λ _ p. record { count = pos (length p); failure = none };
  calls = 0;
  sent = [];
}

abbrev count : Count
count = record { a_to_b = 5; b_to_a = 7 }

abbrev ssh : Client.Accepted
ssh = record {
  service = codes "ssh";
  listener = codes "l";
  remote_addr = codes "r";
  connection_id = codes "0";
}

abbrev web : Listener.Accepted
web = record {
  agent_id = codes "gpu-1";
  service = codes "web";
  listener = codes "l";
  source_addr = codes "r";
  connection_id = codes "0";
}

ssh_written : (write_frame writer (Client.open_frame agent ssh)).1 ≡ done
unfolding write_frame frame_body open_body append_strings append_string write_full
ssh_written = refl

web_written : (write_frame writer (Listener.open_frame web)).1 ≡ done
unfolding write_frame frame_body open_body append_strings append_string write_full
web_written = refl

ok_written : (write_frame writer (answer type_ok 0)).1 ≡ done
unfolding write_frame frame_body open_body append_strings append_string write_full
ok_written = refl

ssh_target : forward_target server agent.agent_id ssh.service ≡ some (codes "127.0.0.1:22")
unfolding find_agent lookup
ssh_target = refl

web_target : lookup web.service agent.reverse ≡ some (codes "127.0.0.1:80")
unfolding lookup
web_target = refl

forward_tunnel_example :
    let opened = smooth (received writer (Client.open_frame agent ssh) [] eof) count in
    let answered = smooth (received writer (answer type_ok 0) [] eof) count in
    (dialled_targets (run_in opened (handle_agent_stream server agent.agent_id))
      ≡ codes "127.0.0.1:22" ∷ [])
    × (sent_frames (run_in opened (handle_agent_stream server agent.agent_id))
        ≡ answer type_ok 0 ∷ [])
    × (joins (run_in opened (handle_agent_stream server agent.agent_id)) ≡ 1)
    × (joins (run_in answered (serve_forward agent ssh)) ≡ 1)
forward_tunnel_example =
    forward_tunnel agent writer writer [] [] eof eof count count (codes "127.0.0.1:22") server ssh
      refl ssh_written refl ok_written ssh_target

reverse_tunnel_example :
    let opened = smooth (received writer (Listener.open_frame web) [] eof) count in
    let answered = smooth (received writer (answer type_ok 0) [] eof) count in
    (dialled_targets (run_in opened (handle_reverse_stream agent)) ≡ codes "127.0.0.1:80" ∷ [])
    × (sent_frames (run_in opened (handle_reverse_stream agent)) ≡ answer type_ok 0 ∷ [])
    × (joins (run_in opened (handle_reverse_stream agent)) ≡ 1)
    × (joins (run_in answered (serve_reverse web)) ≡ 1)
reverse_tunnel_example =
    reverse_tunnel agent writer writer [] [] eof eof count count (codes "127.0.0.1:80") web refl
      web_written refl ok_written web_target
