-- ===== src/Metrics/Listed.antt =====
-- The agents that the status lists.
use mule.Base.{
  ◌≡◌, refl, ◌∙◌, ap, sym, ◌↔◌, Text, Bool, true, false, ◌||◌, [], ◌∷◌, List, some, if◌then◌else◌,
  codes, text_eq, text_eq_iff, text_eq_sound, lookup, insert, lookup-insert, has_text, keys, IsMap,
  Bool-cases, inl, inr, arith,
}
use mule.Metrics.{
  Metrics, agents_of, text_leb, insert_sorted, sort_strings, connected_ids, is_role,
  set_agent_connected, status,
}

has_text-insert_sorted :
    (k id : Text) (ids : List Text)
    → has_text k (insert_sorted id ids) ≡ (text_eq id k || has_text k ids)
unfolding insert_sorted has_text
has_text-insert_sorted k id [] = refl
has_text-insert_sorted k id (other ∷ ids) = ground (arith, has_text-insert_sorted k id ids)

has_text-sort_strings :
    (k : Text) (ids : List Text) → has_text k (sort_strings ids) ≡ has_text k ids
unfolding has_text
has_text-sort_strings k [] = refl
has_text-sort_strings k (id ∷ ids) =
    has_text-insert_sorted k id (sort_strings ids)
    ∙ ap (◌||◌ (text_eq id k)) (has_text-sort_strings k ids)

not_listed :
    (k : Text) (agents : List (Text × Bool))
    → has_text k (keys agents) ≡ false
    → has_text k (connected_ids agents) ≡ false
unfolding has_text
not_listed k [] h = refl
not_listed k ((id, b) ∷ agents) h = ground (arith, not_listed k agents)

listed_iff :
    (k : Text) (agents : List (Text × Bool))
    → IsMap agents
    → (has_text k (connected_ids agents) ≡ true) ↔ (lookup k agents ≡ some true)
unfolding has_text lookup
listed_iff k [] h = (λ e. cc, λ e. cc)
listed_iff k ((id, b) ∷ agents) h =
    let (to, from) = listed_iff k agents h.1 in
    let apart = not_listed k agents in
    (
      λ e. ground (arith, text_eq_iff id k, to, apart),
      λ e. ground (arith, text_eq_iff id k, from, apart),
    )

abbrev pub IsSorted : List Text → Type 0
IsSorted [] = Unit
IsSorted (id ∷ []) = Unit
IsSorted (id ∷ other ∷ ids) = (text_leb id other ≡ true) × IsSorted (other ∷ ids)

text_leb_total : (s t : Text) → text_leb s t ≡ false → text_leb t s ≡ true
unfolding text_leb
text_leb_total [] t h = cc
text_leb_total (x ∷ s) [] h = refl
text_leb_total (x ∷ s) (y ∷ t) h = ground (arith, text_leb_total s t)

insert_sorted-IsSorted :
    (id : Text) (ids : List Text) → IsSorted ids → IsSorted (insert_sorted id ids)
unfolding insert_sorted
insert_sorted-IsSorted id [] h = tt
insert_sorted-IsSorted id (other ∷ []) h = elim (Bool-cases (text_leb id other)) [
  | inl first ↦ rw first (first, tt)
  | inr last ↦ rw last (text_leb_total id other last, tt)
]
insert_sorted-IsSorted id (other ∷ next ∷ ids) h =
    let rest = insert_sorted-IsSorted id (next ∷ ids) h.1 in
    elim (Bool-cases (text_leb id other)) [
      | inl first ↦ rw first (first, h)
      | inr later ↦ elim (Bool-cases (text_leb id next)) [
        | inl first ↦ rw (later, first) (text_leb_total id other later, rw first at rest)
        | inr last ↦ rw (later, last) (h.0, rw last at rest)
      ]
    ]

sort_strings-IsSorted : (ids : List Text) → IsSorted (sort_strings ids)
sort_strings-IsSorted [] = tt
sort_strings-IsSorted (id ∷ ids) =
    insert_sorted-IsSorted id (sort_strings ids) (sort_strings-IsSorted ids)

iff_agrees :
    (k id : Text) (b : Bool) (agents : List (Text × Bool)) (before now : Bool)
    → (before ≡ true → lookup id agents ≡ some true)
    → (lookup id agents ≡ some true → before ≡ true)
    → (now ≡ true → lookup id (insert k b agents) ≡ some true)
    → (lookup id (insert k b agents) ≡ some true → now ≡ true)
    → now ≡ (if text_eq k id then b else before)
iff_agrees k id b agents before now to from to' from' =
    ground (arith, lookup-insert k id b agents, to, from, to', from')

pub has_text-status :
    (m : Metrics) (id : Text)
    → is_role (codes "server") m ≡ true
    → IsMap (agents_of m)
    → (has_text id (status m).connected_agents ≡ true) ↔ (lookup id (agents_of m) ≡ some true)
has_text-status m id server map =
    let (to, from) = listed_iff id (agents_of m) map in
    let sorted = has_text-sort_strings id (connected_ids (agents_of m)) in
    rw server (λ e. to (sym sorted ∙ e), λ e. sorted ∙ from e)

has_text-keys-insert :
    (k j : Text) (b : Bool) (agents : List (Text × Bool))
    → has_text j (keys (insert k b agents)) ≡ (text_eq k j || has_text j (keys agents))
unfolding has_text insert
has_text-keys-insert k j b [] = refl
has_text-keys-insert k j b ((id, c) ∷ agents) =
    ground (
      arith,
      has_text-keys-insert k j b agents,
      text_eq_iff id k,
      text_eq_iff id j,
      text_eq_iff k j,
    )

insert-IsMap :
    (k : Text) (b : Bool) (agents : List (Text × Bool)) → IsMap agents → IsMap (insert k b agents)
unfolding has_text insert
insert-IsMap k b [] h = (refl, tt)
insert-IsMap k b ((id, c) ∷ agents) h = elim (Bool-cases (text_eq id k)) [
  | inl same ↦ rw same (rw (text_eq_sound id k same) at h.0, h.1)
  | inr apart ↦ rw apart (
    has_text-keys-insert k id b agents ∙ ground (arith, text_eq_iff id k, text_eq_iff k id),
    insert-IsMap k b agents h.1,
  )
]

-- `SetAgentConnected` of a server whose agents are a Go map changes in the status whether that one
-- agent is listed, and the list stays in the order of the ids.
pub status-set_agent_connected :
    (m : Metrics) (k id : Text) (b : Bool)
    → is_role (codes "server") m ≡ true
    → IsMap (agents_of m)
    → (has_text id (status (set_agent_connected k b m)).connected_agents
        ≡ (if text_eq k id then b else has_text id (status m).connected_agents))
      × IsSorted (status (set_agent_connected k b m)).connected_agents
status-set_agent_connected m k id b server map =
    let (to, from) = has_text-status m id server map in
    let (to', from') =
      has_text-status (set_agent_connected k b m) id server (insert-IsMap k b (agents_of m) map) in
    (
      iff_agrees k id b (agents_of m) _ _ to from to' from',
      rw server (sort_strings-IsSorted (connected_ids (insert k b (agents_of m)))),
    )
