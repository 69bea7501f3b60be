-- ===== src/Server/Accepting.antt =====
-- internal/server/server.go: the accept loop of `Run`, from a connection that quic-go has accepted
-- to the goroutine that serves it, among the ends of those goroutines.
pub mod Owned
pub mod Acceptor
pub mod Probes
mod Runs
use mule.Base.{
  ℕ, suc, ◌+◌, ◌-◌, ◌==◌, Text, Bool, true, false, [], ◌∷◌, List, Option, none, some, if◌then◌else◌,
  ltb, text_eq,
}
use mule.Auth.Identities.{client_id_for_tls_state, probe_server_name_for_client}
use mule.Server.Connections.{register, unregister}

-- An accepted connection with what its TLS state says: the keys of the peer's certificates and the
-- server name that it asked for.
pub record Peer : Type 0 where
  pub conn : ℕ
  pub certificates : List (Option Text)
  pub server_name : Text

-- A goroutine that the loop has started: `handleAgent`, or one of the two that answer a probe.
pub record Started : Type 0 where
  pub agent_id : Text
  pub peer : Peer
  pub is_legacy : Bool

pub record Loop : Type 0 where
  pub conns : List (Text × ℕ)
  pub auth_failures : ℕ
  -- The slots of the channel that are taken.
  pub probes : ℕ
  pub serving : List Started
  pub probing : List Started

-- What becomes of a connection: closed with a code, or served.
pub data Decision : Type 0 where
  unauthorized over_capacity already_connected : Decision
  serves answers_probe answers_legacy_probe : (agent_id : Text) → Decision

abbrev pub started : Text → Peer → Bool → Started
started agent_id peer is_legacy = record { agent_id = agent_id; peer = peer; is_legacy = is_legacy }

abbrev pub start_probe : Text → Peer → Bool → Loop → Loop
start_probe agent_id peer is_legacy loop = record loop {
  probes = suc loop.probes;
  probing = started agent_id peer is_legacy ∷ loop.probing;
}

-- Whether the channel has a free slot, and the decisions of the two cases of `select`.
abbrev pub try_probe : Bool → Text → Peer → Bool → Decision → Decision → Loop → Loop × Decision
try_probe true agent_id peer is_legacy free full loop =
    (start_probe agent_id peer is_legacy loop, free)
try_probe false agent_id peer is_legacy free full loop = (loop, full)

-- A probe under the server name that asks for it.
abbrev pub accept_probe : ℕ → Text → Peer → Loop → Loop × Decision
accept_probe capacity agent_id peer loop =
    try_probe (ltb loop.probes capacity) agent_id peer false (answers_probe agent_id) over_capacity
      loop

-- What `register` gives: an agent that has a connection already may be an old client's probe.
abbrev pub accept_agent : ℕ → Text → Peer → Loop → Option (List (Text × ℕ)) → Loop × Decision
accept_agent capacity agent_id peer loop (some conns) = (
  record loop { conns = conns; serving = started agent_id peer false ∷ loop.serving },
  serves agent_id,
)
accept_agent capacity agent_id peer loop none =
    try_probe (ltb loop.probes capacity) agent_id peer true (answers_legacy_probe agent_id)
      already_connected loop

abbrev pub dispatch : ℕ → Peer → Loop → Option Text → Loop × Decision
dispatch capacity peer loop none =
    (record loop { auth_failures = suc loop.auth_failures }, unauthorized)
dispatch capacity peer loop (some agent_id) =
    if text_eq peer.server_name (probe_server_name_for_client agent_id)
    then accept_probe capacity agent_id peer loop
    else accept_agent capacity agent_id peer loop (register agent_id peer.conn loop.conns)

-- With `MaxPendingDials`, and `ClientByPublicKey` of the authenticator.
unfoldable pub accept_connection : ℕ → List (Text × Text) → Peer → Loop → Loop × Decision
accept_connection capacity clients peer loop =
    dispatch capacity peer loop (client_id_for_tls_state clients peer.certificates)

abbrev pub without : ℕ → List Started → List Started
without conn [] = []
without conn (s ∷ rest) = if s.peer.conn == conn then rest else s ∷ without conn rest

abbrev pub find : ℕ → List Started → Option Started
find conn [] = none
find conn (s ∷ rest) = if s.peer.conn == conn then some s else find conn rest

abbrev pub end_probe_of : ℕ → Loop → Option Started → Loop
end_probe_of conn loop none = loop
end_probe_of conn loop (some s) = record loop {
  probes = loop.probes - 1;
  probing = without conn loop.probing;
}

abbrev pub end_agent_of : ℕ → Loop → Option Started → Loop
end_agent_of conn loop none = loop
end_agent_of conn loop (some s) = record loop {
  conns = unregister s.agent_id conn loop.conns;
  serving = without conn loop.serving;
}

-- What `select` meets, and between its turns the ends of the goroutines, with their deferred
-- functions.
pub data Event : Type 0 where
  arrives : Peer → Event
  probe_ends agent_ends : (conn : ℕ) → Event
  -- `Accept` fails, with the context done or not.
  accept_fails : (is_done : Bool) → Event
  listener_fails cancels : Event

pub data Return : Type 0 where
  shuts_down accept_failed reverse_listener_failed : Return

-- The loop over the events: what it has become of them, its decisions, and with what it returns,
-- if it does.
pub record Ran : Type 0 where
  pub loop : Loop
  pub decisions : List Decision
  pub returned : Option Return

abbrev pub returns : Loop → Return → Ran
returns loop r = record { loop = loop; decisions = []; returned = some r }

abbrev pub decided : Decision → Ran → Ran
decided d ran = record ran { decisions = d ∷ ran.decisions }

unfoldable pub accept_loop : ℕ → List (Text × Text) → List Event → Loop → Ran
unfolding accept_connection
accept_loop capacity clients [] loop = record { loop = loop; decisions = []; returned = none }
accept_loop capacity clients (arrives peer ∷ events) loop =
    let (next, decision) = accept_connection capacity clients peer loop in
    decided decision (accept_loop capacity clients events next)
accept_loop capacity clients (probe_ends conn ∷ events) loop =
    accept_loop capacity clients events (end_probe_of conn loop (find conn loop.probing))
accept_loop capacity clients (agent_ends conn ∷ events) loop =
    accept_loop capacity clients events (end_agent_of conn loop (find conn loop.serving))
accept_loop capacity clients (accept_fails is_done ∷ events) loop =
    returns loop (if is_done then shuts_down else accept_failed)
accept_loop capacity clients (listener_fails ∷ events) loop = returns loop reverse_listener_failed
accept_loop capacity clients (cancels ∷ events) loop = returns loop shuts_down
