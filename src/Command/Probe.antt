-- ===== src/Command/Probe.antt =====
-- cmd/mule/main.go: `runProbe`, from its arguments to what it makes of the server's answer. What
-- quic-go gives is a parameter.
pub mod Answered
mod Runs
use mule.Base.{
  ℕ, ◌*◌, ◌==◌, Text, Bool, true, false, not, ◌||◌, [], ◌∷◌, List, if◌then◌else◌, codes, ℤ, pos,
  Result, ok, err, guard, ◌>>=◌, ◌>>◌, map_err,
}
use mule.Config.Strings.{is_empty}
use mule.Config.Limits.{second}
use mule.Config.Validate.{validate_udp_address, validate_client_id, validate_route_id}
use mule.Config.Validate
use mule.Auth.Secret.{SecretError, load_secret_file}
use mule.Auth.Identities.{exit_server_name_for_client, probe_server_name_for_client}
use mule.Protocol.Frame.{Frame, Error, type_probe, type_ok}
use mule.Command.{parse_direction}
use mule.Command
use mule.Command.Flags.{FlagError, Kind, text_flag, duration_flag, parse_flags, value_of}
use mule.Command.Assemble.{World}

pub data ProbeError : Type 0 where
  flags : FlagError → ProbeError
  missing_flags : ProbeError
  config : Validate.Error → ProbeError
  direction : Command.Error → ProbeError
  secret : SecretError → ProbeError

-- What is probed, as whom.
pub record Probe : Type 0 where
  pub server : Text
  pub agent_id : Text
  pub direction : ℕ
  pub service : Text
  pub secret : Text

abbrev pub probe_kinds : List (Text × Kind)
probe_kinds =
    (codes "server", text_flag)
    ∷ (codes "agent-id", text_flag)
    ∷ (codes "secret-file", text_flag)
    ∷ (codes "service", text_flag)
    ∷ (codes "direction", text_flag)
    ∷ (codes "connect-timeout", duration_flag)
    ∷ (codes "handshake-timeout", duration_flag)
    ∷ (codes "idle-timeout", duration_flag)
    ∷ (codes "keepalive", duration_flag)
    ∷ []

abbrev pub lacks_flags : (server agent_id secret_file service : Text) → Bool
lacks_flags server agent_id secret_file service =
    is_empty server || (is_empty agent_id || (is_empty secret_file || is_empty service))

unfoldable pub probe_ready : World → List Text → Result ProbeError Probe
unfolding parse_flags validate_udp_address validate_client_id validate_route_id load_secret_file
probe_ready w args = do
  set ← map_err flags (parse_flags w.values probe_kinds args)
  let server = value_of (codes "server") [] set
  let agent_id = value_of (codes "agent-id") [] set
  let secret_file = value_of (codes "secret-file") [] set
  let service = value_of (codes "service") [] set
  guard (not (lacks_flags server agent_id secret_file service)) missing_flags
  map_err config (validate_udp_address server)
  map_err config (validate_client_id agent_id)
  map_err config (validate_route_id service)
  towards ← map_err direction (parse_direction (value_of (codes "direction") (codes "forward") set))
  loaded ← map_err secret (load_secret_file w.os secret_file w.files)
  ok (record {
    server = server;
    agent_id = agent_id;
    direction = towards;
    service = service;
    secret = loaded;
  })

abbrev pub probe_frame : Probe → Frame
probe_frame p = record {
  type = type_probe;
  code = 0;
  direction = p.direction;
  service = p.service;
  peer_id = p.agent_id;
  listener = [];
  source_addr = [];
  connection_id = codes "probe";
}

-- Whether a server is reached under a server name, with the configuration of TLS made, whether a
-- stream opens, whether the frame is written, and what `ReadFrame` gives.
pub record Calls : Type 0 where
  pub dials : Text → Bool
  pub opens : Bool
  pub writes : Bool
  pub response : Result Error Frame

pub data ProbeResult : Type 0 where
  no_connection no_stream not_written : ProbeResult
  not_read : Error → ProbeResult
  rejected : (code : ℕ) → ProbeResult
  reachable : ProbeResult

abbrev pub judge : Result Error Frame → ProbeResult
judge (err e) = not_read e
judge (ok resp) = if not (resp.type == type_ok) then rejected resp.code else reachable

abbrev pub on_connection : Calls → ProbeResult
on_connection calls =
    if not calls.opens
    then no_stream
    else if not calls.writes
    then not_written
    else judge calls.response

-- The dedicated server name first, then that of an agent, for a server that does not know it.
abbrev pub run_probe : Probe → Calls → ProbeResult
run_probe p calls =
    if calls.dials (probe_server_name_for_client p.agent_id)
      || calls.dials (exit_server_name_for_client p.agent_id)
    then on_connection calls
    else no_connection
