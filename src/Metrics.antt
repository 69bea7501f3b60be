-- ===== src/Metrics.antt =====
-- internal/metrics/metrics.go: the status that the metrics endpoint shows.
pub mod Listed
pub mod Endpoint
mod Runs
use mule.Base.{
  ℕ, Text, Bool, true, false, [], ◌∷◌, List, Option, none, some, if◌then◌else◌, codes, text_eq,
  lookup, insert, length, ℤ, ltb, ◌==◌,
}

pub record Metrics : Type 0 where
  pub quic_connections : ℤ
  pub role : Text
  pub agent_id : Text
  pub server : Text
  -- None is the nil map.
  pub connected_agents : Option (List (Text × Bool))

pub record Status : Type 0 where
  pub role : Text
  pub agent_id : Text
  pub server : Text
  pub connected : Option Bool
  pub connected_agents : List Text
  pub configured_agent_count : ℕ
  pub quic_connections : ℤ

abbrev pub configure_agent : Text → Text → Metrics → Metrics
configure_agent agent_id server m = record m {
  role = codes "agent";
  agent_id = agent_id;
  server = server;
  connected_agents = some ((agent_id, false) ∷ []);
}

-- The loop that sets each id to false.
abbrev pub all_offline : List (Text × Bool) → List Text → List (Text × Bool)
all_offline agents [] = agents
all_offline agents (id ∷ ids) = all_offline (insert id false agents) ids

abbrev pub configure_server : List Text → Metrics → Metrics
configure_server ids m = record m {
  role = codes "server";
  connected_agents = some (all_offline [] ids);
}

abbrev pub agents_of : Metrics → List (Text × Bool)
agents_of m = elim m.connected_agents [ none ↦ [] | some agents ↦ agents ]

abbrev pub set_agent_connected : Text → Bool → Metrics → Metrics
set_agent_connected id connected m = record m {
  connected_agents = some (insert id connected (agents_of m));
}

-- The order of Go strings, by bytes.
unfoldable pub text_leb : Text → Text → Bool
text_leb [] t = true
text_leb (x ∷ s) [] = false
text_leb (x ∷ s) (y ∷ t) =
    let rest = text_leb s t in if ltb x y then true else if x == y then rest else false

-- `sort.Strings`.
unfoldable pub insert_sorted : Text → List Text → List Text
insert_sorted id [] = id ∷ []
insert_sorted id (other ∷ ids) =
    let rest = insert_sorted id ids in if text_leb id other then id ∷ other ∷ ids else other ∷ rest

abbrev pub sort_strings : List Text → List Text
sort_strings [] = []
sort_strings (id ∷ ids) = insert_sorted id (sort_strings ids)

abbrev pub connected_ids : List (Text × Bool) → List Text
connected_ids [] = []
connected_ids ((id, connected) ∷ agents) =
    if connected then id ∷ connected_ids agents else connected_ids agents

abbrev pub or_false : Option Bool → Bool
or_false none = false
or_false (some b) = b

abbrev pub is_role : Text → Metrics → Bool
is_role role m = text_eq m.role role

abbrev pub status : Metrics → Status
status m = record {
  role = m.role;
  agent_id = m.agent_id;
  server = m.server;
  connected =
      if is_role (codes "agent") m then some (or_false (lookup m.agent_id (agents_of m))) else none;
  connected_agents =
      if is_role (codes "server") m then sort_strings (connected_ids (agents_of m)) else [];
  configured_agent_count = if is_role (codes "server") m then length (agents_of m) else 0;
  quic_connections = m.quic_connections;
}
