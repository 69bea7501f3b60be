-- ===== src/Server/Settings/Valid.antt =====
-- What `ValidateConfig` of the server accepts, and what the defaults have to do with it.
use mule.Base.{
  ◌≡◌, refl, ◌↔◌, Text, true, false, not, [], ◌∷◌, List, ok, guard, map_err, map_err_iff, Result,
  arith, on_ok, All, map, has_text, Distinct, Avoids, Avoids-cons, Avoids-nil,
}
use mule.Config.Strings.{is_empty}
use mule.Config.Normalize.{is_nil}
use mule.Config.Address.Ports.{Accepted}
use mule.Config.Validate.{
  client_id_pattern, validate_client_id, validate_tcp_address, validate_listen_address,
  validate_udp_address,
}
use mule.Config.Validate.Accepting.{
  validate_client_id_iff, validate_tcp_address_iff, validate_listen_address_iff,
  validate_udp_address_iff,
}
use mule.Config.Limits.{IsPositive, not_positive-IsPositive}
use mule.Config.Services.{check_services, ServiceIsValid, check_services_iff}
use mule.Config.Validate
use mule.Server.Settings.{
  AgentConfig, Config, listen_udp_required, no_agent, not_positive_duration, not_positive_limit,
  duplicate_agent, config, bad_durations, bad_limits, check_agents, validate_config,
}

-- A target is dialled, a listener's host may be left out.
abbrev pub TargetIsValid : Text × Text → Type 0
TargetIsValid = ServiceIsValid (λ addr. Accepted addr false)

abbrev pub ListenerIsValid : Text × Text → Type 0
ListenerIsValid = ServiceIsValid (λ addr. Accepted addr true)

abbrev pub AgentIsValid : AgentConfig → Type 0
AgentIsValid agent =
    (client_id_pattern agent.id ≡ true)
    × All TargetIsValid agent.forward
    × All ListenerIsValid agent.reverse

abbrev pub ids : List AgentConfig → List Text
ids = map λ agent. agent.id

abbrev pub IsValid : Config → Type 0
IsValid cfg =
    (is_empty cfg.listen_udp ≡ false)
    × Accepted cfg.listen_udp true
    × (is_nil cfg.agents ≡ false)
    × IsPositive cfg.handshake_timeout
    × IsPositive cfg.idle_timeout
    × IsPositive cfg.dial_timeout
    × IsPositive cfg.keep_alive
    × IsPositive cfg.max_streams
    × IsPositive cfg.max_pending_dials
    × All AgentIsValid cfg.agents
    × Distinct (ids cfg.agents)

AgentsAreValid : List Text → List AgentConfig → Type 0
AgentsAreValid seen agents =
    All AgentIsValid agents × Avoids seen (ids agents) × Distinct (ids agents)

check_agents_iff :
    (seen : List Text) (agents : List AgentConfig)
    → (check_agents seen agents ≡ ok tt) ↔ AgentsAreValid seen agents
unfolding check_agents AgentsAreValid
check_agents_iff seen [] = (λ e. (tt, tt, tt), λ h. refl)
check_agents_iff seen (agent ∷ rest) =
    let (found, passes) = check_agents_iff (agent.id ∷ seen) rest in
    let (is_id, id_is) = validate_client_id_iff agent.id in
    let (is_target, target_is) =
      check_services_iff validate_tcp_address (λ a. Accepted a false) validate_tcp_address_iff
        agent.forward in
    let (is_listener, listener_is) =
      check_services_iff validate_listen_address (λ a. Accepted a true) validate_listen_address_iff
        agent.reverse in
    let lifted = λ (r : Result Validate.Error (Unit {0})). map_err_iff config r tt in
    (
      λ e. on_ok (map_err config (validate_client_id agent.id)) _ e λ u e_id e1.
          on_ok (guard (not (has_text agent.id seen)) (duplicate_agent agent.id)) _ e1 λ u new e2.
            on_ok (map_err config (check_services validate_tcp_address agent.forward)) _ e2
              λ u e_t e3.
                on_ok (map_err config (check_services validate_listen_address agent.reverse)) _ e3
                  λ u e_l e4.
                    let (valid, avoids, distinct) = found e4 in
                    let (ahead, others) = (Avoids-cons agent.id seen (ids rest)).0 avoids in
                    (
                      (
                        (
                          is_id ((lifted _).0 e_id),
                          is_target ((lifted _).0 e_t),
                          is_listener ((lifted _).0 e_l),
                        ),
                        valid,
                      ),
                      (ground arith, others),
                      (ahead, distinct),
                    ),
      λ h.
          rw (id_is h.0.0.0, h.1.0, target_is h.0.0.1, listener_is h.0.0.2)
            (passes (h.0.1, (Avoids-cons agent.id seen (ids rest)).1 (h.2.0, h.1.1), h.2.1)),
    )

-- `ValidateConfig` accepts exactly the valid configurations: a UDP address to listen on, at least
-- one agent, positive durations and limits, and agents with distinct valid ids of which each
-- service has a valid name and a valid address, with a host where the server dials it.
pub server_config_iff : (cfg : Config) → (validate_config cfg ≡ ok tt) ↔ IsValid cfg
unfolding validate_config AgentsAreValid
server_config_iff cfg =
    let (is_address, address_is) = validate_udp_address_iff cfg.listen_udp in
    let (are_agents, agents_are) = check_agents_iff [] cfg.agents in
    (
      λ e. on_ok (guard (not (is_empty cfg.listen_udp)) listen_udp_required) _ e λ u some_udp e1.
          on_ok (map_err config (validate_udp_address cfg.listen_udp)) _ e1 λ u udp e2.
            on_ok (guard (not (is_nil cfg.agents)) no_agent) _ e2 λ u some_agents e3.
              on_ok (guard (not (bad_durations cfg)) not_positive_duration) _ e3 λ u durations e4.
                on_ok (guard (not (bad_limits cfg)) not_positive_limit) _ e4 λ u limits e5.
                  let (valid, avoids, distinct) = are_agents e5 in
                  (
                    ground arith,
                    is_address ((map_err_iff config _ tt).0 udp),
                    ground arith,
                    ground arith,
                    ground arith,
                    ground arith,
                    ground arith,
                    ground arith,
                    ground arith,
                    valid,
                    distinct,
                  ),
      λ h. rw (
        h.0,
        address_is h.1,
        h.2,
        (not_positive-IsPositive cfg.handshake_timeout).1 h.3,
        (not_positive-IsPositive cfg.idle_timeout).1 h.4,
        (not_positive-IsPositive cfg.dial_timeout).1 h.5,
        (not_positive-IsPositive cfg.keep_alive).1 h.6,
        (not_positive-IsPositive cfg.max_streams).1 h.7,
        (not_positive-IsPositive cfg.max_pending_dials).1 h.8,
        agents_are (h.9, Avoids-nil (ids cfg.agents), h.10),
      ),
    )
