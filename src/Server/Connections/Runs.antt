-- ===== src/Server/Connections/Runs.antt =====
-- A concrete agent that reconnects, and the theorems at it.
use mule.Base.{
  ℕ, ◌↔◌, List, none, some, ◌≡◌, refl, Text, true, false, [], ◌∷◌, codes, lookup, insert, delete,
  IsMap,
}
use mule.Server.Connections.{
  Server, connection_of, register, unregister, at, serving, discounting, Reach, idle, step, accept,
  count, mark, leave, discount, unmark,
}
use mule.Server.Connections.Registry.{
  Operation, registers, unregisters, asks, closes, Reply, is_registered, connection, nothing,
  closed, operate, after, Accepts, IsHeld,
}
use mule.Server.Connections.Held.{registry_iff}
use mule.Server.Connections.Registered.{entries, connections_registered}

abbrev gpu : Text
gpu = codes "gpu-1"

-- The first connection has ended and is unregistered, but its deferred function has not gone on
-- when the second is served.
abbrev reconnected : Server
reconnected = record {
  conns = (gpu, 2) ∷ [];
  quic_connections = 2;
  status = (gpu, true) ∷ [];
  tasks = at gpu 1 discounting ∷ at gpu 2 serving ∷ [];
  closed = false;
}

reached_reconnected : Reach reconnected
unfolding register unregister lookup insert delete
reached_reconnected =
    step
      (step
        (step
          (step
            (step
              (step (step (idle ((gpu, false) ∷ [])) (accept _ gpu 1 ((gpu, 1) ∷ []) refl refl))
                (count _ gpu 1 [] [] refl))
              (mark _ gpu 1 [] [] refl))
            (leave _ gpu 1 [] [] refl))
          (accept _ gpu 2 ((gpu, 2) ∷ []) refl refl))
        (count _ gpu 2 (at gpu 1 discounting ∷ []) [] refl))
      (mark _ gpu 2 (at gpu 1 discounting ∷ []) [] refl)

connections_registered_example :
    (reconnected.conns ≡ entries reconnected.tasks) × IsMap reconnected.conns
connections_registered_example = connections_registered reached_reconnected refl

-- The deferred function then marks the agent offline, though its second connection is served.
abbrev overtaken : Server
overtaken = record {
  conns = (gpu, 2) ∷ [];
  quic_connections = 1;
  status = (gpu, false) ∷ [];
  tasks = at gpu 2 serving ∷ [];
  closed = false;
}

reached_overtaken : Reach overtaken
unfolding insert
reached_overtaken =
    step (step reached_reconnected (discount reconnected gpu 1 [] (at gpu 2 serving ∷ []) refl))
      (unmark _ gpu 1 [] (at gpu 2 serving ∷ []) refl)

abbrev calls : List Operation
calls =
    registers gpu 1
    ∷ registers gpu 2
    ∷ unregisters gpu 2
    ∷ asks gpu
    ∷ unregisters gpu 1
    ∷ registers gpu 2
    ∷ unregisters gpu 1
    ∷ asks gpu
    ∷ []

-- The second connection, which was refused at first and outlives the late end of the first.
registry_iff_example :
    ((connection_of gpu (after calls []) ≡ some 2) ↔ IsHeld gpu 2 calls [])
    × (Accepts gpu 2 (after calls []) ↔ ((other : ℕ) → ¬ IsHeld gpu other calls []))
registry_iff_example = registry_iff calls gpu 2

held_now : connection_of gpu (after calls []) ≡ some 2
unfolding operate register unregister lookup insert delete
held_now = refl

abbrev replies : List Operation → List (Text × ℕ) → List Reply
replies [] conns = []
replies (op ∷ ops) conns = (operate op conns).0 ∷ replies ops (operate op conns).1

answered :
    replies calls []
    ≡ is_registered true
      ∷ is_registered false
      ∷ nothing
      ∷ connection (some 1)
      ∷ nothing
      ∷ is_registered true
      ∷ nothing
      ∷ connection (some 2)
      ∷ []
unfolding operate register unregister lookup insert delete
answered = refl

shut_down :
    replies (closes ∷ asks gpu ∷ []) ((gpu, 2) ∷ []) ≡ closed (2 ∷ []) ∷ connection none ∷ []
unfolding operate lookup
shut_down = refl
