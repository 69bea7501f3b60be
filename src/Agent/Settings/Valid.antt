-- ===== src/Agent/Settings/Valid.antt =====
-- What `ValidateConfig` of the agent accepts, alone and behind the defaults.
use mule.Base.{
  ◌≡◌, ◌↔◌, ◌*◌, true, false, not, ok, guard, map_err, map_err_iff, arith, on_ok, All, pos, ◌≤ℤ◌,
}
use mule.Config.Address.Ports.{Accepted}
use mule.Config.Validate.{
  client_id_pattern, validate_client_id, validate_tcp_address, validate_listen_address,
  validate_udp_address,
}
use mule.Config.Validate.Accepting.{
  validate_client_id_iff, validate_tcp_address_iff, validate_listen_address_iff,
  validate_udp_address_iff,
}
use mule.Config.Services.{check_services, ServiceIsValid, check_services_iff}
use mule.Config.Limits.{
  second, not_positive, IsPositive, not_positive-IsPositive, or_default-IsPositive, or_default_idem,
}
use mule.Agent.Settings.{
  Config, missing_names, no_service, not_positive_delay, not_positive_duration, not_positive_limit,
  config, lacks_names, lacks_services, bad_durations, apply_defaults, validate_config,
}

-- A listener's host may be left out, a target is dialled.
abbrev pub ServicesAreValid : Config → Type 0
ServicesAreValid cfg =
    All (ServiceIsValid (λ addr. Accepted addr true)) cfg.forward
    × All (ServiceIsValid (λ addr. Accepted addr false)) cfg.reverse
    × (lacks_services cfg ≡ false)

abbrev pub NamesAreValid : Config → Type 0
NamesAreValid cfg =
    (lacks_names cfg ≡ false) × Accepted cfg.server true × (client_id_pattern cfg.agent_id ≡ true)

abbrev pub IsValid : Config → Type 0
IsValid cfg =
    NamesAreValid cfg
    × ServicesAreValid cfg
    × IsPositive cfg.reconnect_delay
    × IsPositive cfg.connect_timeout
    × IsPositive cfg.handshake_timeout
    × IsPositive cfg.idle_timeout
    × IsPositive cfg.keep_alive
    × IsPositive cfg.max_connections

-- Zero stands for the default.
abbrev pub IsAcceptable : Config → Type 0
IsAcceptable cfg =
    NamesAreValid cfg
    × ServicesAreValid cfg
    × (pos 0 ≤ℤ cfg.reconnect_delay)
    × (pos 0 ≤ℤ cfg.connect_timeout)
    × (pos 0 ≤ℤ cfg.handshake_timeout)
    × (pos 0 ≤ℤ cfg.idle_timeout)
    × (pos 0 ≤ℤ cfg.keep_alive)
    × (pos 0 ≤ℤ cfg.max_connections)

-- `ValidateConfig` accepts exactly the valid configurations: the three names given, a UDP address
-- of the server and a client id of the agent, some service, each with a valid name and a valid
-- address, with a host where the agent dials it, and positive durations and limits.
pub agent_config_iff : (cfg : Config) → (validate_config cfg ≡ ok tt) ↔ IsValid cfg
unfolding validate_config
agent_config_iff cfg =
    let (is_address, address_is) = validate_udp_address_iff cfg.server in
    let (is_id, id_is) = validate_client_id_iff cfg.agent_id in
    let (is_listener, listener_is) =
      check_services_iff validate_listen_address (λ a. Accepted a true) validate_listen_address_iff
        cfg.forward in
    let (is_target, target_is) =
      check_services_iff validate_tcp_address (λ a. Accepted a false) validate_tcp_address_iff
        cfg.reverse in
    (
      λ e. on_ok (guard (not (lacks_names cfg)) missing_names) _ e λ u names e1.
          on_ok (map_err config (validate_udp_address cfg.server)) _ e1 λ u udp e2.
            on_ok (map_err config (validate_client_id cfg.agent_id)) _ e2 λ u id e3.
              on_ok (guard (not (lacks_services cfg)) no_service) _ e3 λ u services e4.
                on_ok (guard (not (not_positive cfg.reconnect_delay)) not_positive_delay) _ e4
                  λ u delay e5.
                    on_ok (guard (not (bad_durations cfg)) not_positive_duration) _ e5
                      λ u durations e6.
                        on_ok (guard (not (not_positive cfg.max_connections)) not_positive_limit) _
                          e6
                          λ u limit e7.
                            on_ok
                              (map_err config (check_services validate_listen_address cfg.forward))
                              _ e7
                              λ u f e8. (
                                (
                                  ground arith,
                                  is_address ((map_err_iff config _ tt).0 udp),
                                  is_id ((map_err_iff config _ tt).0 id),
                                ),
                                (
                                  is_listener ((map_err_iff config _ tt).0 f),
                                  is_target ((map_err_iff config _ tt).0 e8),
                                  ground arith,
                                ),
                                ground arith,
                                ground arith,
                                ground arith,
                                ground arith,
                                ground arith,
                                ground arith,
                              ),
      λ h. rw (
        h.0.0,
        address_is h.0.1,
        id_is h.0.2,
        h.1.2,
        (not_positive-IsPositive cfg.reconnect_delay).1 h.2,
        (not_positive-IsPositive cfg.connect_timeout).1 h.3,
        (not_positive-IsPositive cfg.handshake_timeout).1 h.4,
        (not_positive-IsPositive cfg.idle_timeout).1 h.5,
        (not_positive-IsPositive cfg.keep_alive).1 h.6,
        (not_positive-IsPositive cfg.max_connections).1 h.7,
        listener_is h.1.0,
        target_is h.1.1,
      ),
    )

apply_defaults-IsValid : (cfg : Config) → IsValid (apply_defaults cfg) ↔ IsAcceptable cfg
unfolding apply_defaults
apply_defaults-IsValid cfg =
    let r = or_default-IsPositive cfg.reconnect_delay second (omega arith) in
    let c = or_default-IsPositive cfg.connect_timeout (10 * second) (omega arith) in
    let h = or_default-IsPositive cfg.handshake_timeout (10 * second) (omega arith) in
    let i = or_default-IsPositive cfg.idle_timeout (300 * second) (omega arith) in
    let k = or_default-IsPositive cfg.keep_alive (20 * second) (omega arith) in
    let m = or_default-IsPositive cfg.max_connections 100 (omega arith) in
    (
      λ v. (v.0, v.1, r.0 v.2, c.0 v.3, h.0 v.4, i.0 v.5, k.0 v.6, m.0 v.7),
      λ a. (a.0, a.1, r.1 a.2, c.1 a.3, h.1 a.4, i.1 a.5, k.1 a.6, m.1 a.7),
    )

-- What `Run` of the agent checks before it does anything: with the defaults in place,
-- `ValidateConfig` accepts exactly the configurations that are valid with zero for any duration
-- or limit.
pub agent_defaulted_iff :
    (cfg : Config) → (validate_config (apply_defaults cfg) ≡ ok tt) ↔ IsAcceptable cfg
agent_defaulted_iff cfg =
    let (to, from) = agent_config_iff (apply_defaults cfg) in
    let (to', from') = apply_defaults-IsValid cfg in (λ e. to' (to e), λ a. from (from' a))

pub apply_defaults_idem : (cfg : Config) → apply_defaults (apply_defaults cfg) ≡ apply_defaults cfg
unfolding apply_defaults
apply_defaults_idem cfg = simp or_default_idem
