-- ===== src/Metrics/Endpoint.antt =====
-- internal/metrics/metrics.go: `Handler` and `Serve`. encoding/json and net/http are parameters: a
-- body is what is given to them.
use mule.Base.{
  ℕ, Text, Bool, false, [], ◌∷◌, List, Option, none, some, if◌then◌else◌, codes, text_eq, ℤ, pos,
}
use mule.Config.Strings.{is_empty}
use mule.Metrics.{Metrics, Status, status}

-- The other gauges and counters, as they are read while the response is written.
pub record Counts : Type 0 where
  pub active_tcp_connections : ℤ
  pub active_quic_streams : ℤ
  pub tcp_connections_total : ℕ
  pub streams_total : ℕ
  pub stream_errors_total : ℕ
  pub target_dial_errors : ℕ
  pub auth_failures_total : ℕ
  pub bytes_client_to_target : ℕ
  pub bytes_target_to_client : ℕ

-- A body: a text, a status in JSON, or lines of a name and a number.
pub data Body : Type 0 where
  text_body : Text → Body
  status_body : Status → Body
  lines : List (Text × ℤ) → Body

pub record Response : Type 0 where
  pub content_type : Text
  pub code : ℕ
  pub body : Body

abbrev pub metric_lines : Metrics → Counts → List (Text × ℤ)
metric_lines m counts =
    (codes "mule_active_tcp_connections", counts.active_tcp_connections)
    ∷ (codes "mule_active_quic_streams", counts.active_quic_streams)
    ∷ (codes "mule_quic_connections", m.quic_connections)
    ∷ (codes "mule_tcp_connections_total", pos counts.tcp_connections_total)
    ∷ (codes "mule_streams_total", pos counts.streams_total)
    ∷ (codes "mule_stream_errors_total", pos counts.stream_errors_total)
    ∷ (codes "mule_target_dial_errors_total", pos counts.target_dial_errors)
    ∷ (codes "mule_auth_failures_total", pos counts.auth_failures_total)
    ∷ (codes "mule_bytes_client_to_target_total", pos counts.bytes_client_to_target)
    ∷ (codes "mule_bytes_target_to_client_total", pos counts.bytes_target_to_client)
    ∷ []

-- Before `Run` has configured a role, the server or agent is starting.
abbrev pub status_response : Metrics → Response
status_response m =
    if is_empty (status m).role
    then record {
      content_type = codes "application/json";
      code = 503;
      body = text_body (codes "{\"status\":\"starting\"}\n");
    }
    else record {
      content_type = codes "application/json";
      code = 200;
      body = status_body (status m);
    }

unfoldable pub handler : Text → Metrics → Counts → Response
handler path m counts = if text_eq path (codes "/status") then status_response m else record {
  content_type = codes "text/plain; version=0.0.4";
  code = 200;
  body = lines (metric_lines m counts);
}

-- What `ListenAndServe` returns.
pub data Served : Type 0 where
  server_closed : Served
  failed : Text → Served

-- `err == http.ErrServerClosed`.
abbrev pub serve_result : Served → Option Text
serve_result server_closed = none
serve_result (failed e) = some e

-- With no address nothing is served. Whether the context ends or the server fails first, its error
-- is what is returned, after a shutdown in the first case.
unfoldable pub serve : (addr : Text) → (is_done : Bool) → Served → Bool × Option Text
serve addr is_done served = if is_empty addr then (false, none) else (is_done, serve_result served)
