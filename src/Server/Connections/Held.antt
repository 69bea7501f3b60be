-- ===== src/Server/Connections/Held.antt =====
-- What an agent has after any calls of the registry.
use mule.Base.{
  ℕ, ◌≡◌, ◌↔◌, ◌⊎◌, inl, inr, refl, sym, Text, [], ◌∷◌, List, All, some, lookup, text_eq,
  Bool-cases, Option-cases, subst,
}
use mule.Server.Connections.{connection_of, connections_in, close_connections}
use mule.Server.Connections.Calls.{register_fresh_iff, HasAfter, HasAfter-operate}
use mule.Server.Connections.Registry.{
  Operation, registers, operate, after, Keeps, Accepts, IsHeld, now, later,
}

-- The connection that is there before the operations counts too.
Placed : Text → ℕ → List Operation → List (Text × ℕ) → Type 0
Placed a c ops conns = ((lookup a conns ≡ some c) × All (Keeps a c) ops) ⊎ IsHeld a c ops conns

now-Placed :
    (a : Text) (c : ℕ) (op : Operation) (ops : List Operation) (conns : List (Text × ℕ))
    → op ≡ registers a c
    → Accepts a c conns
    → All (Keeps a c) ops
    → Placed a c (op ∷ ops) conns
unfolding Placed
now-Placed a c op ops conns e accepted keeps =
    inr (subst (λ (o : Operation). IsHeld a c (o ∷ ops) conns) (sym e) (now accepted keeps))

first-Placed :
    (a : Text) (c : ℕ) (op : Operation) (ops : List Operation) (conns : List (Text × ℕ))
    → IsHeld a c (op ∷ ops) conns
    → Placed a c ops (operate op conns).1
unfolding Placed HasAfter
first-Placed a c op ops conns (now accepted keeps) =
    inl ((HasAfter-operate a c (registers a c) conns).1 (inr (refl, accepted)), keeps)
first-Placed a c op ops conns (later held) = inr held

-- An operation put ahead of the others.
earlier_iff :
    (a : Text) (c : ℕ) (op : Operation) (ops : List Operation) (conns : List (Text × ℕ))
    → Placed a c ops (operate op conns).1 ↔ Placed a c (op ∷ ops) conns
unfolding Placed HasAfter
earlier_iff a c op ops conns = (
  λ placed. elim placed [
    | inr held ↦ inr (later held)
    | inl (there, keeps) ↦ elim ((HasAfter-operate a c op conns).0 there) [
      | inl (before, keep) ↦ inl (before, (keep, keeps))
      | inr (e, accepted) ↦ now-Placed a c op ops conns e accepted keeps
    ]
  ],
  λ placed. elim placed [
    | inl (before, keeps) ↦ inl ((HasAfter-operate a c op conns).1 (inl (before, keeps.0)), keeps.1)
    | inr held ↦ first-Placed a c op ops conns held
  ],
)

after_iff :
    (a : Text) (c : ℕ) (ops : List Operation) (conns : List (Text × ℕ))
    → (lookup a (after ops conns) ≡ some c) ↔ Placed a c ops conns
unfolding Placed
after_iff a c [] conns =
    (λ e. inl (e, tt), λ h. elim h [ inl (e, k) ↦ e | inr held ↦ elim held [ ] ])
after_iff a c (op ∷ ops) conns =
    let (to, from) = after_iff a c ops (operate op conns).1 in
    let (up, down) = earlier_iff a c op ops conns in (λ e. up (to e), λ h. from (down h))

from_empty_iff :
    (a : Text) (c : ℕ) (ops : List Operation)
    → (lookup a (after ops []) ≡ some c) ↔ IsHeld a c ops []
unfolding Placed lookup
from_empty_iff a c ops =
    let (to, from) = after_iff a c ops [] in
    (λ e. elim (to e) [ inl (there, k) ↦ absurd (cc) | inr held ↦ held ], λ held. from (inr held))

-- From an empty registry, whatever the calls were, `conn` gives an agent exactly the connection
-- whose registration succeeded and that has been neither unregistered nor closed since, whatever
-- other connections were registered or unregistered; and a registration succeeds exactly if the
-- agent has no such connection.
pub registry_iff :
    (ops : List Operation) (agent_id : Text) (conn : ℕ)
    → ((connection_of agent_id (after ops []) ≡ some conn) ↔ IsHeld agent_id conn ops [])
      × (Accepts agent_id conn (after ops []) ↔ ((other : ℕ) → ¬ IsHeld agent_id other ops []))
registry_iff ops a c = (
  from_empty_iff a c ops,
  (
    λ accepted. λ other held.
        let missing = (register_fresh_iff a c (after ops [])).0 accepted in
        let there = (from_empty_iff a other ops).1 held in cc,
    λ free.
        (register_fresh_iff a c (after ops [])).1 (elim (Option-cases (lookup a (after ops []))) [
          | inl missing ↦ missing
          | inr (x, there) ↦ absurd (free x ((from_empty_iff a x ops).0 there))
        ]),
  ),
)

abbrev pub Among : ℕ → List ℕ → Type 0
Among c [] = ⊥
Among c (x ∷ xs) = (c ≡ x) ⊎ Among c xs

connections_in-Among :
    (a : Text) (c : ℕ) (conns : List (Text × ℕ))
    → lookup a conns ≡ some c
    → Among c (connections_in conns)
unfolding lookup
connections_in-Among a c [] e = absurd (cc)
connections_in-Among a c ((b, d) ∷ conns) e = elim (Bool-cases (text_eq b a)) [
  | inl same ↦ inl (let here = rw same at e in cc)
  | inr other ↦ inr (connections_in-Among a c conns (rw other at e))
]

-- At the end, `closeConnections` closes each of them.
close_connections-IsHeld :
    (ops : List Operation) (agent_id : Text) (conn : ℕ)
    → IsHeld agent_id conn ops []
    → Among conn (close_connections (after ops [])).0
close_connections-IsHeld ops a c held =
    connections_in-Among a c (after ops []) ((from_empty_iff a c ops).1 held)
