-- ===== src/Server/Connections/Registered.antt =====
-- What is registered and counted, whatever the order of the steps.
use mule.Base.{
  ℕ, ◌+◌, ◌≡◌, refl, sym, ap, ◌∙◌, subst, Text, Bool, true, false, [], ◌∷◌, ◌++◌, List, some,
  if◌then◌else◌, ==_iff, lookup, IsMap, missing_iff, insert_fresh, lookup-middle, delete-middle,
  without_middle-IsMap, snoc-IsMap, has_text, keys, Option-cases, inl, inr, arith,
}
use mule.Server.Connections.{
  register, unregister, Stage, counting, marking, serving, discounting, unmarking, Task, Server, at,
  accept, count, mark, leave, discount, unmark, close, Reach, idle, step,
}

-- The stages from `register` to `unregister`, and those from `Add(1)` to `Add(-1)`.
abbrev pub holds_entry : Stage → Bool
holds_entry counting = true
holds_entry marking = true
holds_entry serving = true
holds_entry s = false

abbrev pub holds_count : Stage → Bool
holds_count marking = true
holds_count serving = true
holds_count discounting = true
holds_count s = false

abbrev pub entry : Task → List (Text × ℕ)
entry t = if holds_entry t.stage then (t.agent_id, t.conn) ∷ [] else []

abbrev pub entries : List Task → List (Text × ℕ)
entries [] = []
entries (t ∷ ts) = entry t ++ entries ts

abbrev pub counted : List Task → ℕ
counted [] = 0
counted (t ∷ ts) = (if holds_count t.stage then 1 else 0) + counted ts

entries-append : (ts us : List Task) → entries (ts ++ us) ≡ entries ts ++ entries us
entries-append [] us = refl
entries-append (t ∷ ts) us = ground (arith, entries-append ts us)

counted-append : (ts us : List Task) → counted (ts ++ us) ≡ counted ts + counted us
counted-append [] us = omega arith
counted-append (t ∷ ts) us = ground (arith, counted-append ts us)

register_appends :
    (agent_id : Text) (conn : ℕ) (conns conns' : List (Text × ℕ))
    → register agent_id conn conns ≡ some conns'
    → (conns' ≡ conns ++ (agent_id, conn) ∷ []) × (has_text agent_id (keys conns) ≡ false)
unfolding register
register_appends agent_id conn conns conns' e = elim (Option-cases (lookup agent_id conns)) [
  | inl missing ↦
      let fresh = (missing_iff agent_id conns).0 missing in
      (ground (arith, insert_fresh agent_id conn conns), fresh)
  | inr (existing, found) ↦ absurd (ground arith)
]

unregister_removes :
    (agent_id : Text) (conn : ℕ) (front back : List (Text × ℕ))
    → IsMap (front ++ (agent_id, conn) ∷ back)
    → unregister agent_id conn (front ++ (agent_id, conn) ∷ back) ≡ front ++ back
unfolding unregister
unregister_removes agent_id conn front back h = rw (
  lookup-middle agent_id conn front back h,
  delete-middle agent_id conn front back h,
  (==_iff conn conn).1 refl,
)

-- The invariant of a server that has not closed.
abbrev pub Registered : List (Text × ℕ) → List Task → Type 0
Registered conns tasks = (conns ≡ entries tasks) × IsMap conns

-- A step between two stages that hold the entry keeps it, and the others.
entries_keep :
    (agent_id : Text) (conn : ℕ) (a b : Stage) (conns : List (Text × ℕ))
    (tasks front back : List Task)
    → tasks ≡ front ++ at agent_id conn a ∷ back
    → holds_entry a ≡ holds_entry b
    → Registered conns tasks
    → Registered conns (front ++ at agent_id conn b ∷ back)
entries_keep agent_id conn a b conns tasks front back e same (is, map) = (
  is
      ∙ ap entries e
      ∙ entries-append front (at agent_id conn a ∷ back)
      ∙ rw same (sym (entries-append front (at agent_id conn b ∷ back))),
  map,
)

entries_accept :
    (agent_id : Text) (conn : ℕ) (conns conns' : List (Text × ℕ)) (tasks : List Task)
    → register agent_id conn conns ≡ some conns'
    → Registered conns tasks
    → Registered conns' (tasks ++ at agent_id conn counting ∷ [])
entries_accept agent_id conn conns conns' tasks e (is, map) =
    let (appended, fresh) = register_appends agent_id conn conns conns' e in
    (
      appended
          ∙ ap (λ (m : List (Text × ℕ)). m ++ (agent_id, conn) ∷ []) is
          ∙ sym (entries-append tasks (at agent_id conn counting ∷ [])),
      rw appended (snoc-IsMap agent_id conn conns fresh map),
    )

entries_leave :
    (agent_id : Text) (conn : ℕ) (conns : List (Text × ℕ)) (tasks front back : List Task)
    → tasks ≡ front ++ at agent_id conn serving ∷ back
    → Registered conns tasks
    → Registered (unregister agent_id conn conns) (front ++ at agent_id conn discounting ∷ back)
entries_leave agent_id conn conns tasks front back e (is, map) =
    let split : conns ≡ entries front ++ (agent_id, conn) ∷ entries back =
      is ∙ ap entries e ∙ entries-append front (at agent_id conn serving ∷ back) in
    let middle : IsMap (entries front ++ (agent_id, conn) ∷ entries back) = subst IsMap split map in
    let removed = unregister_removes agent_id conn (entries front) (entries back) middle in
    rw (split, removed)
      (
        sym (entries-append front (at agent_id conn discounting ∷ back)),
        without_middle-IsMap agent_id conn (entries front) (entries back) middle,
      )

entries_unmark :
    (agent_id : Text) (conn : ℕ) (conns : List (Text × ℕ)) (tasks front back : List Task)
    → tasks ≡ front ++ at agent_id conn unmarking ∷ back
    → Registered conns tasks
    → Registered conns (front ++ back)
entries_unmark agent_id conn conns tasks front back e (is, map) = (
  is
      ∙ ap entries e
      ∙ entries-append front (at agent_id conn unmarking ∷ back)
      ∙ sym (entries-append front back),
  map,
)

-- However the accept loop and the goroutines of the agents interleave, until the server closes the
-- registry holds exactly the connections from their `register` to their `unregister`, in that
-- order, and no agent has two: a connection that ends unregisters itself and no other.
pub connections_registered :
    {s : Server} → Reach s → s.closed ≡ false → (s.conns ≡ entries s.tasks) × IsMap s.conns
connections_registered (idle status) h = (refl, tt)
connections_registered (step r (accept s agent_id conn conns opened e)) h =
    entries_accept agent_id conn s.conns conns s.tasks e (connections_registered r h)
connections_registered (step r (count s agent_id conn front back e)) h =
    entries_keep agent_id conn counting marking s.conns s.tasks front back e refl
      (connections_registered r h)
connections_registered (step r (mark s agent_id conn front back e)) h =
    entries_keep agent_id conn marking serving s.conns s.tasks front back e refl
      (connections_registered r h)
connections_registered (step r (leave s agent_id conn front back e)) h =
    entries_leave agent_id conn s.conns s.tasks front back e (connections_registered r h)
connections_registered (step r (discount s agent_id conn front back e)) h =
    entries_keep agent_id conn discounting unmarking s.conns s.tasks front back e refl
      (connections_registered r h)
connections_registered (step r (unmark s agent_id conn front back e)) h =
    entries_unmark agent_id conn s.conns s.tasks front back e (connections_registered r h)
connections_registered (step r (close s)) h = cc

-- However they interleave, the gauge of QUIC connections is the number of connections between
-- their `Add(1)` and their `Add(-1)`.
pub connections_counted : {s : Server} → Reach s → s.quic_connections ≡ counted s.tasks
connections_counted (idle status) = refl
connections_counted (step r (accept s agent_id conn conns opened e)) =
    ground (arith, connections_counted r, counted-append s.tasks (at agent_id conn counting ∷ []))
connections_counted (step r (count s agent_id conn front back e)) = ground (
  arith,
  connections_counted r,
  ap counted e,
  counted-append front (at agent_id conn counting ∷ back),
  counted-append front (at agent_id conn marking ∷ back),
)
connections_counted (step r (mark s agent_id conn front back e)) = ground (
  arith,
  connections_counted r,
  ap counted e,
  counted-append front (at agent_id conn marking ∷ back),
  counted-append front (at agent_id conn serving ∷ back),
)
connections_counted (step r (leave s agent_id conn front back e)) = ground (
  arith,
  connections_counted r,
  ap counted e,
  counted-append front (at agent_id conn serving ∷ back),
  counted-append front (at agent_id conn discounting ∷ back),
)
connections_counted (step r (discount s agent_id conn front back e)) = ground (
  arith,
  connections_counted r,
  ap counted e,
  counted-append front (at agent_id conn discounting ∷ back),
  counted-append front (at agent_id conn unmarking ∷ back),
)
connections_counted (step r (unmark s agent_id conn front back e)) = ground (
  arith,
  connections_counted r,
  ap counted e,
  counted-append front (at agent_id conn unmarking ∷ back),
  counted-append front back,
)
connections_counted (step r (close s)) = connections_counted r
