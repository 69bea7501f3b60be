-- ===== src/Config/Normalize.antt =====
-- The configuration records, and the three `Normalize` functions. A Go map is the list of its
-- entries in the order in which a `range` meets them.
pub mod Listens
pub mod Routes
pub mod Copies
pub mod Clients
use mule.Base.{
  ℕ, Text, Bool, not, ◌&&◌, ◌||◌, [], ◌∷◌, ◌++◌, List, Option, none, some, if◌then◌else◌, ℤ, codes,
  Result, ok, err, guard, ◌>>=◌, ◌>>◌, lookup, insert, has_text, true, false,
}
use mule.Config.Strings.{is_empty}
use mule.Config.Validate.{
  Error, no_listen, no_target, no_client, simple_routes_unavailable, mixed_modes,
  duplicate_listen_route, duplicate_route, duplicate_client, empty_secret_file, unknown_client,
  no_routes, validate_route_id, validate_client_id, validate_tcp_address, validate_listen_address,
}
use mule.Config.Parse.{RouteListen, Client}

abbrev pub default_route : Text
default_route = codes "default"

pub record Common : Type 0 where
  pub secret_file : Text
  pub log_format : Text
  pub log_level : Text
  pub metrics_listen : Text
  pub shutdown_timeout : ℤ

pub record Forward : Type 0 where
  pub common : Common
  pub open common use *
  pub listen_tcp : Text
  pub listens : List RouteListen
  pub peer : Text
  pub forward_id : Text
  pub send_client_addr : Bool
  pub connect_timeout : ℤ
  pub handshake_timeout : ℤ
  pub idle_timeout : ℤ
  pub max_connections : ℤ
  pub keep_alive : ℤ

pub record Exit : Type 0 where
  pub common : Common
  pub open common use *
  pub listen_udp : Text
  pub target : Text
  pub routes : List (Text × Text)
  pub clients : List Client
  pub client_routes : List (Text × List (Text × Text))
  pub dial_timeout : ℤ
  pub handshake_timeout : ℤ
  pub idle_timeout : ℤ
  pub max_streams : ℤ
  pub max_pending_dials : ℤ
  pub keep_alive : ℤ

-- `len(x) == 0`, for a slice or a map.
abbrev pub is_nil {ℓ} : {A : Type ℓ} → List A → Bool
is_nil [] = true
is_nil (x ∷ xs) = false

unfoldable pub multi_client_mode : Exit → Bool
multi_client_mode cfg = not (is_nil cfg.clients) || not (is_nil cfg.client_routes)

-- The listens in their order, the one of `ListenTCP` first.
abbrev pub forward_listens : Forward → List RouteListen
forward_listens cfg =
    (if is_empty cfg.listen_tcp
      then []
      else record { route = default_route; address = cfg.listen_tcp } ∷ [])
    ++ cfg.listens

-- `seen` holds the routes of the listens before.
unfoldable pub check_listens : List Text → List RouteListen → Result Error (Unit {0})
check_listens seen [] = ok tt
check_listens seen (listen ∷ rest) = do
  validate_route_id listen.route
  validate_listen_address listen.address
  guard (not (has_text listen.route seen)) (duplicate_listen_route listen.route)
  check_listens (listen.route ∷ seen) rest

unfoldable pub normalize_forward_listens : Forward → Result Error (List RouteListen)
normalize_forward_listens cfg = do
  let out = forward_listens cfg
  guard (not (is_nil out)) no_listen
  check_listens [] out
  ok out

abbrev pub is_none {ℓ} : {A : Type ℓ} → Option A → Bool
is_none none = true
is_none (some a) = false

unfoldable pub add_routes :
    List (Text × Text) → List (Text × Text) → Result Error (List (Text × Text))
add_routes routes [] = ok routes
add_routes routes ((route, target) ∷ rest) = do
  guard (is_none (lookup route routes)) (duplicate_route route)
  add_routes (insert route target routes) rest

unfoldable pub check_routes : List (Text × Text) → Result Error (Unit {0})
check_routes [] = ok tt
check_routes ((route, target) ∷ rest) = do
  validate_route_id route
  validate_tcp_address target
  check_routes rest

abbrev pub target_route : Exit → List (Text × Text)
target_route cfg = if is_empty cfg.target then [] else (default_route, cfg.target) ∷ []

unfoldable pub normalize_exit_routes : Exit → Result Error (List (Text × Text))
normalize_exit_routes cfg = do
  guard (not (multi_client_mode cfg)) simple_routes_unavailable
  routes ← add_routes (target_route cfg) cfg.routes
  guard (not (is_nil routes)) no_target
  check_routes routes
  ok routes

-- Returns `seenClients`.
unfoldable pub check_clients : List Text → List Client → Result Error (List Text)
check_clients seen [] = ok seen
check_clients seen (client ∷ rest) = do
  validate_client_id client.id
  guard (not (is_empty client.secret_file)) (empty_secret_file client.id)
  guard (not (has_text client.id seen)) (duplicate_client client.id)
  check_clients (client.id ∷ seen) rest

unfoldable pub copy_routes :
    List (Text × Text) → List (Text × Text) → Result Error (List (Text × Text))
copy_routes out [] = ok out
copy_routes out ((route, target) ∷ rest) = do
  validate_route_id route
  validate_tcp_address target
  copy_routes (insert route target out) rest

unfoldable pub copy_client_routes :
    List Text
    → List (Text × List (Text × Text))
    → List (Text × List (Text × Text))
    → Result Error (List (Text × List (Text × Text)))
copy_client_routes seen out [] = ok out
copy_client_routes seen out ((client_id, routes) ∷ rest) = do
  guard (has_text client_id seen) (unknown_client client_id)
  guard (not (is_nil routes)) (no_routes client_id)
  inner ← copy_routes [] routes
  copy_client_routes seen (insert client_id inner out) rest

-- `len(out[id]) == 0`: a missing entry is an empty map.
abbrev pub lacks_routes : Option (List (Text × Text)) → Bool
lacks_routes none = true
lacks_routes (some routes) = is_nil routes

unfoldable pub check_routed :
    List (Text × List (Text × Text)) → List Client → Result Error (Unit {0})
check_routed out [] = ok tt
check_routed out (client ∷ rest) = do
  guard (not (lacks_routes (lookup client.id out))) (no_routes client.id)
  check_routed out rest

abbrev pub mixes_modes : Exit → Bool
mixes_modes cfg =
    not (is_empty cfg.secret_file) || (not (is_empty cfg.target) || not (is_nil cfg.routes))

unfoldable pub normalize_client_routes : Exit → Result Error (List (Text × List (Text × Text)))
normalize_client_routes cfg = do
  guard (not (is_nil cfg.clients)) no_client
  guard (not (mixes_modes cfg)) mixed_modes
  seen ← check_clients [] cfg.clients
  out ← copy_client_routes seen [] cfg.client_routes
  check_routed out cfg.clients
  ok out
