-- ===== src/Command/Services.antt =====
-- What a mapping on the command line does to the services of the agents.
use mule.Base.{
  ◌≡◌, refl, ap, ◌∙◌, sym, Text, Bool, true, false, not, ◌&&◌, [], ◌∷◌, List, Option, none, some,
  if◌then◌else◌, text_eq, text_eq_iff, text_eq_sound, Bool-cases, inl, inr, lookup, insert,
  lookup-insert, ok, guard, map_err, map_err_iff, ◌++◌, ◌⊎◌, on_ok, ok-injective, arith,
}
use mule.Config.Normalize.{is_none}
use mule.Config.Validate.{validate_tcp_address, validate_listen_address, validate_route_id}
use mule.Config.Validate.{route_id_pattern}
use mule.Config.Validate.Accepting.{validate_route_id_iff}
use mule.Config.Strings.{cut, contains}
use mule.Config.Strings.Cutting.{cut_found}
use mule.Server.Settings.Valid.{ids}
use mule.Server.Settings.{AgentConfig}
use mule.Server.Policy.{find_agent}
use mule.Command.{
  Error, two_parts, bad_mapping, only_agent, agent_and_service, add_server_mapping, add_forward,
  add_reverse, add_service, add_to_agent, config, duplicate_forward, duplicate_reverse,
}

-- The address of a service of an agent, on either side.
abbrev pub address_of : Bool → Text → Option AgentConfig → Option Text
address_of forward service none = none
address_of true service (some agent) = lookup service agent.forward
address_of false service (some agent) = lookup service agent.reverse

abbrev pub service_of : List AgentConfig → Bool → Text → Text → Option Text
service_of agents forward agent_id service = address_of forward service (find_agent agent_id agents)

abbrev pub both : Bool → Bool → Bool
both true b = b
both false b = not b

forward_changed :
    (agent changed : AgentConfig) (service addr : Text)
    → add_forward agent service addr ≡ ok changed
    → changed ≡ record agent { forward = insert service addr agent.forward }
forward_changed agent changed service addr e =
    on_ok (map_err config (validate_tcp_address addr)) _ e λ u valid e1.
      on_ok (guard (is_none (lookup service agent.forward)) (duplicate_forward service agent.id)) _
        e1 λ u' new e2. sym (ok-injective e2)

reverse_changed :
    (agent changed : AgentConfig) (service addr : Text)
    → add_reverse agent service addr ≡ ok changed
    → changed ≡ record agent { reverse = insert service addr agent.reverse }
reverse_changed agent changed service addr e =
    on_ok (map_err config (validate_listen_address addr)) _ e λ u valid e1.
      on_ok (guard (is_none (lookup service agent.reverse)) (duplicate_reverse service agent.id)) _
        e1 λ u' new e2. sym (ok-injective e2)

add_service_changes :
    (agent changed : AgentConfig) (forward side : Bool) (service addr other : Text)
    → add_service forward agent service addr ≡ ok changed
    → (changed.id ≡ agent.id)
      × (address_of side other (some changed) ≡ (
          if both forward side && text_eq service other
          then some addr
          else address_of side other (some agent)))
add_service_changes agent changed true true service addr other e =
    rw (forward_changed agent changed service addr e)
      (refl, lookup-insert service other addr agent.forward)
add_service_changes agent changed true false service addr other e =
    rw (forward_changed agent changed service addr e) (refl, refl)
add_service_changes agent changed false true service addr other e =
    rw (reverse_changed agent changed service addr e) (refl, refl)
add_service_changes agent changed false false service addr other e =
    rw (reverse_changed agent changed service addr e)
      (refl, lookup-insert service other addr agent.reverse)

-- Of the agent with the changed service.
abbrev pub is_changed : Bool → Bool → Text → Text → Text → Text → Bool
is_changed forward side agent_id agent_id' service service' =
    both forward side && (text_eq agent_id agent_id' && text_eq service service')

-- In a list whose first agent is the one that is named, and in one whose first agent is not.
named_first :
    (agent changed : AgentConfig) (rest : List AgentConfig) (agent_id' service service' addr : Text)
    (forward side : Bool)
    → add_service forward agent service addr ≡ ok changed
    → service_of (changed ∷ rest) side agent_id' service' ≡ (
        if is_changed forward side agent.id agent_id' service service'
        then some addr
        else service_of (agent ∷ rest) side agent_id' service')
unfolding find_agent
named_first agent changed rest agent_id' service service' addr forward side e =
    let (same, changes) = add_service_changes agent changed forward side service addr service' e in
    elim (Bool-cases (text_eq agent.id agent_id')) [
      | inl named ↦
          let changed_named : text_eq changed.id agent_id' ≡ true =
            ap (λ i. text_eq i agent_id') same ∙ named in
          rw (changed_named, named) changes
      | inr other ↦
          let changed_other : text_eq changed.id agent_id' ≡ false =
            ap (λ i. text_eq i agent_id') same ∙ other in
          rw (changed_other, other) (ground arith)
    ]

other_first :
    (agent : AgentConfig) (rest changed : List AgentConfig)
    (agent_id agent_id' service service' addr : Text) (forward side : Bool)
    → text_eq agent.id agent_id ≡ false
    → service_of changed side agent_id' service' ≡ (
        if is_changed forward side agent_id agent_id' service service'
        then some addr
        else service_of rest side agent_id' service')
    → service_of (agent ∷ changed) side agent_id' service' ≡ (
        if is_changed forward side agent_id agent_id' service service'
        then some addr
        else service_of (agent ∷ rest) side agent_id' service')
unfolding find_agent
other_first agent rest changed agent_id agent_id' service service' addr forward side apart ih =
    elim (Bool-cases (text_eq agent.id agent_id')) [
      | inl named ↦
          let not_named : text_eq agent_id agent_id' ≡ false = ground (
            arith,
            text_eq_iff agent_id agent_id',
            text_eq_iff agent.id agent_id',
            text_eq_iff agent.id agent_id,
          ) in
          rw (named, not_named) (ground arith)
      | inr other ↦ rw other ih
    ]

add_to_agent-service_of :
    (agents changed : List AgentConfig) (agent_id agent_id' service service' addr : Text)
    (forward side : Bool)
    → add_to_agent agents agent_id service addr forward ≡ ok changed
    → service_of changed side agent_id' service' ≡ (
        if is_changed forward side agent_id agent_id' service service'
        then some addr
        else service_of agents side agent_id' service')
unfolding add_to_agent find_agent
add_to_agent-service_of [] changed agent_id agent_id' service service' addr forward side e = cc
add_to_agent-service_of (agent ∷ rest) changed agent_id agent_id' service service' addr forward side
      e =
    elim (Bool-cases (text_eq agent.id agent_id)) [
      | inl named ↦ on_ok (add_service forward agent service addr) _ (rw named at e) λ c added e1.
          rw (← ok-injective e1, ← text_eq_sound agent.id agent_id named)
            (named_first agent c rest agent_id' service service' addr forward side added)
      | inr apart ↦
          on_ok (add_to_agent rest agent_id service addr forward) _ (rw apart at e)
            λ others added e1. rw (← ok-injective e1) (
              other_first agent rest others agent_id agent_id' service service' addr forward side
                apart
                (add_to_agent-service_of rest others agent_id agent_id' service service' addr
                  forward side added))
    ]

two_parts_found :
    (x : Error) (o : Option (Text × Text)) (parts : Text × Text)
    → two_parts x o ≡ ok parts
    → o ≡ some parts
two_parts_found x none parts e = cc
two_parts_found x (some (left, right)) parts e = ground arith

-- What the left side of a mapping names.
abbrev pub Names : List AgentConfig → Text → Text → Text → Type 0
Names agents left agent_id service =
    (left ≡ agent_id ++ b':' ∷ service) ⊎ ((left ≡ service) × (ids agents ≡ agent_id ∷ []))

only_agent_names :
    (raw service : Text) (agents : List AgentConfig) (named : Text × Text)
    → only_agent raw service agents ≡ ok named
    → (service ≡ named.1) × (ids agents ≡ named.0 ∷ [])
only_agent_names raw service [] named e = cc
only_agent_names raw service (agent ∷ []) named e =
    let is = ok-injective e in
    (ap (λ (p : Text × Text). p.1) is, ap (λ (p : Text × Text). p.0 ∷ []) is)
only_agent_names raw service (agent ∷ other ∷ rest) named e = cc

agent_and_service-Names :
    (agents : List AgentConfig) (raw left : Text) (named : Text × Text)
    → agent_and_service agents raw left ≡ ok named
    → Names agents left named.0 named.1
unfolding agent_and_service
agent_and_service-Names agents raw left named e = elim (Bool-cases (contains b':' left)) [
  | inl colon ↦
      inl
        (cut_found b':' left named.0 named.1
          (two_parts_found (bad_mapping raw) _ named (rw colon at e))).0
  | inr no_colon ↦ inr (only_agent_names raw left agents named (rw no_colon at e))
]

-- A mapping that `addServerMapping` accepts is `agent:service=address`, or `service=address` where
-- there is one agent, with a valid service, and changes the address of exactly that service, for
-- that agent and that side: every other one, of the same agent, of any other and of either side,
-- is as before.
pub add_server_mapping-service_of :
    (agents changed : List AgentConfig) (raw agent_id' service' : Text) (forward side : Bool)
    → add_server_mapping agents raw forward ≡ ok changed
    → (left : Text) × (agent_id : Text) × (service : Text) × (addr : Text) × (raw
        ≡ left ++ b'=' ∷ addr)
      × Names agents left agent_id service
      × (route_id_pattern service ≡ true)
      × (service_of changed side agent_id' service' ≡ (
          if is_changed forward side agent_id agent_id' service service'
          then some addr
          else service_of agents side agent_id' service'))
unfolding add_server_mapping
add_server_mapping-service_of agents changed raw agent_id' service' forward side e =
    on_ok (two_parts (bad_mapping raw) (cut b'=' raw)) _ e λ parts split e1.
      on_ok (agent_and_service agents raw parts.0) _ e1 λ named names e2.
        on_ok (map_err config (validate_route_id named.1)) _ e2 λ u valid e3. (
          parts.0,
          named.0,
          named.1,
          parts.1,
          (cut_found b'=' raw parts.0 parts.1 (two_parts_found (bad_mapping raw) _ parts split)).0,
          agent_and_service-Names agents raw parts.0 named names,
          (validate_route_id_iff named.1).0 ((map_err_iff config _ tt).0 valid),
          add_to_agent-service_of agents changed named.0 agent_id' named.1 service' parts.1 forward
              side e3,
        )
