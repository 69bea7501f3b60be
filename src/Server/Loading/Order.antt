-- ===== src/Server/Loading/Order.antt =====
-- The range over the agents in `LoadConfig` meets them in any order: what that order does not
-- change.
use mule.Base.{
  ◌≡◌, refl, sym, ap, ◌∙◌, Text, Bool, false, ◌||◌, ◌∷◌, List, ℤ, All, Distinct, has_text, text_eq,
  text_eq_sound, text_eq_iff, ok, Bool-cases, inl, inr, arith, subst,
}
use mathlib.Core.List.{Permᴰ}
use mule.Config.Normalize.{is_nil}
use mule.Server.Settings.{AgentConfig, Config, apply_defaults, validate_config}
use mule.Server.Settings.Valid.{AgentIsValid, ids, server_config_iff}
use mule.Server.Policy.{find_agent, target_of, forward_target, allows, reverse_allowed}
use mule.Server.Loading.{FileAgentConfig, FileConfig, agent_of, agents_of, config_of}

All-perm : (P : AgentConfig → Type 0) {l m : List AgentConfig} → Permᴰ l m → All P l → All P m
All-perm P Permᴰ.nil h = tt
All-perm P (Permᴰ.cons e d) h = (subst P e h.0, All-perm P d h.1)
All-perm P (Permᴰ.swap e f) h = (subst P f h.1.0, (subst P e h.0, h.1.1))
All-perm P (Permᴰ.trans d e) h = All-perm P e (All-perm P d h)

or_swap : (a b c : Bool) → (a || (b || c)) ≡ (b || (a || c))
or_swap a b c = ground arith

has_text-perm :
    (k : Text) {l m : List AgentConfig} → Permᴰ l m → has_text k (ids l) ≡ has_text k (ids m)
unfolding has_text
has_text-perm k Permᴰ.nil = refl
has_text-perm k (Permᴰ.cons e d) = rw (e, has_text-perm k d)
has_text-perm k (Permᴰ.swap {a = a} {b = b} {l = l} e f) =
    rw (sym e, sym f) (or_swap (text_eq a.id k) (text_eq b.id k) (has_text k (ids l)))
has_text-perm k (Permᴰ.trans d e) = has_text-perm k d ∙ has_text-perm k e

is_nil-perm : {l m : List AgentConfig} → Permᴰ l m → is_nil l ≡ is_nil m
is_nil-perm Permᴰ.nil = refl
is_nil-perm (Permᴰ.cons e d) = refl
is_nil-perm (Permᴰ.swap e f) = refl
is_nil-perm (Permᴰ.trans d e) = is_nil-perm d ∙ is_nil-perm e

Distinct-swap : (s t : Text) (l : List Text) → Distinct (s ∷ t ∷ l) → Distinct (t ∷ s ∷ l)
unfolding has_text
Distinct-swap s t l h = (ground (arith, text_eq_iff s t, text_eq_iff t s), (ground arith, h.1.1))

Distinct-perm : {l m : List AgentConfig} → Permᴰ l m → Distinct (ids l) → Distinct (ids m)
unfolding has_text
Distinct-perm Permᴰ.nil h = tt
Distinct-perm (Permᴰ.cons {b = b} e d) h =
    (sym (has_text-perm b.id d) ∙ rw (sym e) h.0, Distinct-perm d h.1)
Distinct-perm (Permᴰ.swap {a = a} {b = b} {a' = a'} {b' = b'} {l = l} e f) h =
    subst (λ (x : AgentConfig). Distinct (ids (x ∷ b' ∷ l))) f
      (subst (λ (x : AgentConfig). Distinct (ids (b ∷ x ∷ l))) e
        (Distinct-swap a.id b.id (ids l) h))
Distinct-perm (Permᴰ.trans d e) h = Distinct-perm e (Distinct-perm d h)

find_agent-swap :
    (id : Text) (a b : AgentConfig) (l : List AgentConfig)
    → text_eq b.id a.id ≡ false
    → find_agent id (a ∷ b ∷ l) ≡ find_agent id (b ∷ a ∷ l)
unfolding find_agent
find_agent-swap id a b l apart = elim (Bool-cases (text_eq a.id id)) [
  | inr e ↦ rw e
  | inl e ↦ elim (Bool-cases (text_eq b.id id)) [
    | inr f ↦ rw (e, f)
    | inl f ↦
        let same = text_eq_sound b.id id f ∙ sym (text_eq_sound a.id id e) in
        absurd (let eq = (text_eq_iff b.id a.id).1 same in cc)
  ]
]

find_agent-perm :
    (id : Text) {l m : List AgentConfig}
    → Permᴰ l m
    → Distinct (ids l)
    → find_agent id l ≡ find_agent id m
unfolding find_agent has_text
find_agent-perm id Permᴰ.nil h = refl
find_agent-perm id (Permᴰ.cons e d) h = rw (e, find_agent-perm id d h.1)
find_agent-perm id (Permᴰ.swap {a = a} {b = b} {a' = a'} {b' = b'} {l = l} e f) h =
    find_agent-swap id a b l (ground arith)
    ∙ ap (λ (x : AgentConfig). find_agent id (b ∷ x ∷ l)) e
    ∙ ap (λ (x : AgentConfig). find_agent id (x ∷ b' ∷ l)) f
find_agent-perm id (Permᴰ.trans d e) h =
    find_agent-perm id d h ∙ find_agent-perm id e (Distinct-perm d h)

agents_of-perm :
    {l m : List (Text × FileAgentConfig)} → Permᴰ l m → Permᴰ (agents_of l) (agents_of m)
agents_of-perm Permᴰ.nil = Permᴰ.nil
agents_of-perm (Permᴰ.cons e d) = Permᴰ.cons (ap agent_of e) (agents_of-perm d)
agents_of-perm (Permᴰ.swap e f) = Permᴰ.swap (ap agent_of e) (ap agent_of f)
agents_of-perm (Permᴰ.trans d e) = Permᴰ.trans (agents_of-perm d) (agents_of-perm e)

-- The same decisions for every agent and service.
abbrev pub SamePolicy : Config → Config → Type 0
SamePolicy cfg cfg' =
    (agent_id service : Text)
    → (forward_target cfg agent_id service ≡ forward_target cfg' agent_id service)
      × (reverse_allowed cfg agent_id service ≡ reverse_allowed cfg' agent_id service)

-- What `LoadConfig` returns once the durations are parsed, if the range meets the agents in the order
-- of the list.
abbrev pub loaded :
    FileConfig → List (Text × FileAgentConfig) → (handshake idle dial keep_alive : ℤ) → Config
loaded fc agents handshake idle dial keep_alive =
    apply_defaults (config_of (record fc { agents = agents }) handshake idle dial keep_alive)

-- The order in which the range over the agents of the file meets them changes neither whether the
-- configuration is valid, nor for any agent and service which target is dialled and whether a
-- reverse probe is allowed.
pub load_config-order :
    (fc : FileConfig) (met other : List (Text × FileAgentConfig))
    (handshake idle dial keep_alive : ℤ)
    → Permᴰ met other
    → validate_config (loaded fc met handshake idle dial keep_alive) ≡ ok tt
    → (validate_config (loaded fc other handshake idle dial keep_alive) ≡ ok tt)
      × SamePolicy
          (loaded fc met handshake idle dial keep_alive)
          (loaded fc other handshake idle dial keep_alive)
unfolding apply_defaults
load_config-order fc met other handshake idle dial keep_alive d valid =
    let perm = agents_of-perm d in
    let h = (server_config_iff (loaded fc met handshake idle dial keep_alive)).0 valid in
    (
      (server_config_iff (loaded fc other handshake idle dial keep_alive)).1 (
        h.0,
        h.1,
        sym (is_nil-perm perm) ∙ h.2,
        h.3,
        h.4,
        h.5,
        h.6,
        h.7,
        h.8,
        All-perm AgentIsValid perm h.9,
        Distinct-perm perm h.10,
      ),
      λ agent_id service. (
        ap (target_of service) (find_agent-perm agent_id perm h.10),
        ap (allows service) (find_agent-perm agent_id perm h.10),
      ),
    )
