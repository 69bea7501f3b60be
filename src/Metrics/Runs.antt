-- ===== src/Metrics/Runs.antt =====
-- A concrete server's status, and the theorem at it.
use mule.Base.{◌≡◌, refl, true, false, [], ◌∷◌, none, some, codes, lookup, insert, pos}
use mule.Metrics.{
  Metrics, configure_agent, configure_server, set_agent_connected, insert_sorted, text_leb, status,
}

abbrev new : Metrics
new = record {
  quic_connections = pos 0;
  role = [];
  agent_id = [];
  server = [];
  connected_agents = none;
}

abbrev three : Metrics
unfolding insert
three = set_agent_connected (codes "c") true (
    set_agent_connected (codes "b") true
      (configure_server (codes "c" ∷ codes "a" ∷ codes "b" ∷ []) new))

-- Listed in order, and counted whether connected or not.
listed : (status three).connected_agents ≡ codes "b" ∷ codes "c" ∷ []
unfolding three insert insert_sorted text_leb
listed = refl

configured : (status three).configured_agent_count ≡ 3
unfolding three insert
configured = refl

agent_offline : (status (configure_agent (codes "a") (codes "s") new)).connected ≡ some false
unfolding lookup
agent_offline = refl
