-- ===== src/Server/Settings/Defaults.antt =====
-- The defaults of the server: what they change, and what the server then accepts.
use mule.Base.{◌≡◌, ◌↔◌, ◌*◌, true, false, ok, arith, All, Distinct, pos, ◌≤ℤ◌}
use mule.Config.Strings.{is_empty}
use mule.Config.Normalize.{is_nil}
use mule.Config.Limits.{second, or_default-IsPositive, or_default_idem}
use mule.Config.Address.Ports.{Accepted}
use mule.Server.Settings.{Config, apply_defaults, validate_config}
use mule.Server.Settings.Valid.{AgentIsValid, ids, IsValid, server_config_iff}

-- Zero stands for the default.
abbrev pub IsAcceptable : Config → Type 0
IsAcceptable cfg =
    (is_empty cfg.listen_udp ≡ false)
    × Accepted cfg.listen_udp true
    × (is_nil cfg.agents ≡ false)
    × (pos 0 ≤ℤ cfg.handshake_timeout)
    × (pos 0 ≤ℤ cfg.idle_timeout)
    × (pos 0 ≤ℤ cfg.dial_timeout)
    × (pos 0 ≤ℤ cfg.keep_alive)
    × (pos 0 ≤ℤ cfg.max_streams)
    × (pos 0 ≤ℤ cfg.max_pending_dials)
    × All AgentIsValid cfg.agents
    × Distinct (ids cfg.agents)

apply_defaults-IsValid : (cfg : Config) → IsValid (apply_defaults cfg) ↔ IsAcceptable cfg
unfolding apply_defaults
apply_defaults-IsValid cfg =
    let h = or_default-IsPositive cfg.handshake_timeout (10 * second) (omega arith) in
    let i = or_default-IsPositive cfg.idle_timeout (300 * second) (omega arith) in
    let d = or_default-IsPositive cfg.dial_timeout (10 * second) (omega arith) in
    let k = or_default-IsPositive cfg.keep_alive (20 * second) (omega arith) in
    let s = or_default-IsPositive cfg.max_streams 100 (omega arith) in
    let p = or_default-IsPositive cfg.max_pending_dials 20 (omega arith) in
    (
      λ v. (v.0, v.1, v.2, h.0 v.3, i.0 v.4, d.0 v.5, k.0 v.6, s.0 v.7, p.0 v.8, v.9, v.10),
      λ a. (a.0, a.1, a.2, h.1 a.3, i.1 a.4, d.1 a.5, k.1 a.6, s.1 a.7, p.1 a.8, a.9, a.10),
    )

-- What `Run` checks before it does anything: with the defaults in place, `ValidateConfig` accepts
-- exactly the configurations that are valid with zero for any duration or limit.
pub server_defaulted_iff :
    (cfg : Config) → (validate_config (apply_defaults cfg) ≡ ok tt) ↔ IsAcceptable cfg
server_defaulted_iff cfg =
    let (to, from) = server_config_iff (apply_defaults cfg) in
    let (to', from') = apply_defaults-IsValid cfg in (λ e. to' (to e), λ a. from (from' a))

pub apply_defaults_idem : (cfg : Config) → apply_defaults (apply_defaults cfg) ≡ apply_defaults cfg
unfolding apply_defaults
apply_defaults_idem cfg = simp or_default_idem
