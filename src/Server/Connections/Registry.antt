-- ===== src/Server/Connections/Registry.antt =====
-- internal/server/server.go: the registry of the connections as the goroutines use it, one call of it
-- after the other, and whose place it keeps, told by the calls and their replies alone.
use mule.Base.{ℕ, ◌≡◌, ◌≢◌, Text, Bool, true, false, [], ◌∷◌, List, All, Option, none, some}
use mule.Server.Connections.{register, unregister, connection_of, close_connections}

-- The calls that take the mutex.
pub data Operation : Type 0 where
  registers unregisters : (agent_id : Text) (conn : ℕ) → Operation
  asks : (agent_id : Text) → Operation
  closes : Operation

pub data Reply : Type 0 where
  is_registered : Bool → Reply
  connection : Option ℕ → Reply
  nothing : Reply
  closed : List ℕ → Reply

-- A registry that refuses stays as it is.
abbrev pub replied : List (Text × ℕ) → Option (List (Text × ℕ)) → Reply × List (Text × ℕ)
replied conns none = (is_registered false, conns)
replied conns (some conns') = (is_registered true, conns')

unfoldable pub operate : Operation → List (Text × ℕ) → Reply × List (Text × ℕ)
unfolding register unregister
operate (registers agent_id conn) conns = replied conns (register agent_id conn conns)
operate (unregisters agent_id conn) conns = (nothing, unregister agent_id conn conns)
operate (asks agent_id) conns = (connection (connection_of agent_id conns), conns)
operate closes conns = (closed (close_connections conns).0, (close_connections conns).1)

-- The operations in the order in which they get the mutex.
abbrev pub after : List Operation → List (Text × ℕ) → List (Text × ℕ)
after [] conns = conns
after (op ∷ ops) conns = after ops (operate op conns).1

-- Neither the end of this connection nor that of the server.
abbrev pub Keeps : Text → ℕ → Operation → Type 0
Keeps agent_id conn op = (op ≢ unregisters agent_id conn) × (op ≢ closes)

abbrev pub Accepts : Text → ℕ → List (Text × ℕ) → Type 0
Accepts agent_id conn conns = (operate (registers agent_id conn) conns).0 ≡ is_registered true

-- Among the operations the connection has been registered for the agent with success, and since
-- then it has not been unregistered, and the server has not closed its connections.
pub data IsHeld (agent_id : Text) (conn : ℕ) : List Operation → List (Text × ℕ) → Type 0 where
  now :
      {ops : List Operation} {conns : List (Text × ℕ)}
      → Accepts agent_id conn conns
      → All (Keeps agent_id conn) ops
      → IsHeld agent_id conn (registers agent_id conn ∷ ops) conns
  later :
      {op : Operation} {ops : List Operation} {conns : List (Text × ℕ)}
      → IsHeld agent_id conn ops (operate op conns).1
      → IsHeld agent_id conn (op ∷ ops) conns
