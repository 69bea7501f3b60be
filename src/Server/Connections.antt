-- ===== src/Server/Connections.antt =====
-- internal/server/server.go: the connections of the agents, registered by the accept loop of `Run`
-- and unregistered by the goroutines that serve them. A connection is a number; a call that takes
-- the mutex or changes a metric is one step.
pub mod Registered
pub mod Registry
pub mod Calls
pub mod Held
mod Runs
use mule.Base.{
  ℕ, suc, ◌-◌, ◌≡◌, Text, Bool, true, false, [], ◌∷◌, ◌++◌, List, Option, none, some, if◌then◌else◌,
  ◌==◌, lookup, insert, delete,
}

-- None where the agent is connected already.
abbrev pub registered : Text → ℕ → List (Text × ℕ) → Option ℕ → Option (List (Text × ℕ))
registered agent_id conn conns (some existing) = none
registered agent_id conn conns none = some (insert agent_id conn conns)

unfoldable pub register : Text → ℕ → List (Text × ℕ) → Option (List (Text × ℕ))
register agent_id conn conns = registered agent_id conn conns (lookup agent_id conns)

abbrev pub is_conn : ℕ → Option ℕ → Bool
is_conn conn none = false
is_conn conn (some current) = current == conn

unfoldable pub unregister : Text → ℕ → List (Text × ℕ) → List (Text × ℕ)
unregister agent_id conn conns =
    if is_conn conn (lookup agent_id conns) then delete agent_id conns else conns

-- `conn`.
abbrev pub connection_of : Text → List (Text × ℕ) → Option ℕ
connection_of agent_id conns = lookup agent_id conns

abbrev pub connections_in : List (Text × ℕ) → List ℕ
connections_in [] = []
connections_in ((id, conn) ∷ conns) = conn ∷ connections_in conns

-- `closeConnections`: what it calls `CloseWithError` on, and the map that it leaves.
abbrev pub close_connections : List (Text × ℕ) → List ℕ × List (Text × ℕ)
close_connections conns = (connections_in conns, [])

-- Where a registered connection stands: in `Run` before `QUICConnections.Add(1)` and before
-- `SetAgentConnected(id, true)`, in the loop of `handleAgent`, and in its deferred function before
-- `QUICConnections.Add(-1)` and before `SetAgentConnected(id, false)`.
pub data Stage : Type 0 where
  counting marking serving discounting unmarking : Stage

pub record Task : Type 0 where
  pub agent_id : Text
  pub conn : ℕ
  pub stage : Stage

pub record Server : Type 0 where
  pub conns : List (Text × ℕ)
  pub quic_connections : ℕ
  -- `connectedAgents` of the metrics.
  pub status : List (Text × Bool)
  pub tasks : List Task
  -- `Run` has returned, and its deferred `closeConnections` has run.
  pub closed : Bool

abbrev pub at : Text → ℕ → Stage → Task
at agent_id conn stage = record { agent_id = agent_id; conn = conn; stage = stage }

-- The task between the others goes on to its next stage.
pub data Step : Server → Server → Type 0 where
  accept :
      (s : Server) (agent_id : Text) (conn : ℕ) (conns : List (Text × ℕ))
      → s.closed ≡ false
      → register agent_id conn s.conns ≡ some conns
      → Step s (record s { conns = conns; tasks = s.tasks ++ at agent_id conn counting ∷ [] })
  count :
      (s : Server) (agent_id : Text) (conn : ℕ) (front back : List Task)
      → s.tasks ≡ front ++ at agent_id conn counting ∷ back
      → Step s (record s {
        quic_connections = suc s.quic_connections;
        tasks = front ++ at agent_id conn marking ∷ back;
      })
  mark :
      (s : Server) (agent_id : Text) (conn : ℕ) (front back : List Task)
      → s.tasks ≡ front ++ at agent_id conn marking ∷ back
      → Step s (record s {
        status = insert agent_id true s.status;
        tasks = front ++ at agent_id conn serving ∷ back;
      })
  -- `AcceptStream` fails, and `unregister` runs.
  leave :
      (s : Server) (agent_id : Text) (conn : ℕ) (front back : List Task)
      → s.tasks ≡ front ++ at agent_id conn serving ∷ back
      → Step s (record s {
        conns = unregister agent_id conn s.conns;
        tasks = front ++ at agent_id conn discounting ∷ back;
      })
  discount :
      (s : Server) (agent_id : Text) (conn : ℕ) (front back : List Task)
      → s.tasks ≡ front ++ at agent_id conn discounting ∷ back
      → Step s (record s {
        quic_connections = s.quic_connections - 1;
        tasks = front ++ at agent_id conn unmarking ∷ back;
      })
  unmark :
      (s : Server) (agent_id : Text) (conn : ℕ) (front back : List Task)
      → s.tasks ≡ front ++ at agent_id conn unmarking ∷ back
      → Step s (record s { status = insert agent_id false s.status; tasks = front ++ back })
  close : (s : Server) → Step s (record s { conns = (close_connections s.conns).1; closed = true })

pub data Reach : Server → Type 0 where
  idle :
      (status : List (Text × Bool))
      → Reach
          (record { conns = []; quic_connections = 0; status = status; tasks = []; closed = false })
  step : {s t : Server} → Reach s → Step s t → Reach t
