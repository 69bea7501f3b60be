-- ===== src/Server/Accepting/Probes.antt =====
-- The slots of the probes.
use mule.Base.{
  ℕ, ◌-◌, ◌==◌, ◌≡◌, ◌≤◌, refl, Text, Bool, true, false, [], ◌∷◌, List, Option, none, some, ltb,
  text_eq, length, Bool-cases, inl, inr, arith,
}
use mule.Auth.Identities.{client_id_for_tls_state, probe_server_name_for_client}
use mule.Server.Connections.{register}
use mule.Server.Accepting.{
  Peer, Started, Loop, Decision, over_capacity, already_connected, answers_probe,
  answers_legacy_probe, try_probe, accept_agent, dispatch, accept_connection, without, end_probe_of,
  end_agent_of, find, Event, arrives, probe_ends, agent_ends, accept_fails, listener_fails, cancels,
  accept_loop,
}

-- A slot is taken exactly while one of these goroutines runs.
abbrev pub SlotsFit : ℕ → Loop → Type 0
SlotsFit capacity loop = (loop.probes ≡ length loop.probing) × (loop.probes ≤ capacity)

length-without :
    (conn : ℕ) (ss : List Started) (s : Started)
    → find conn ss ≡ some s
    → length (without conn ss) ≡ length ss - 1
length-without conn [] s e = absurd (cc)
length-without conn (t ∷ ss) s e = elim (Bool-cases (t.peer.conn == conn)) [
  | inl h ↦ rw h (omega arith)
  | inr h ↦ rw h (
      let rest = length-without conn ss s (rw h at e) in
      let some_there = found_some ss (rw h at e) in omega arith)
]
  where
    found_some : (ss : List Started) → find conn ss ≡ some s → 1 ≤ length ss
    found_some [] f = absurd (cc)
    found_some (u ∷ us) f = omega arith

SlotsFit-probe :
    (capacity : ℕ) (agent_id : Text) (peer : Peer) (is_legacy : Bool) (d e : Decision) (loop : Loop)
    → SlotsFit capacity loop
    → SlotsFit capacity (try_probe (ltb loop.probes capacity) agent_id peer is_legacy d e loop).0
SlotsFit-probe capacity agent_id peer is_legacy d e loop h =
    elim (Bool-cases (ltb loop.probes capacity)) [
      | inl free ↦ rw free (omega arith, ground arith)
      | inr full ↦ rw full h
    ]

SlotsFit-dispatch :
    (capacity : ℕ) (peer : Peer) (loop : Loop) (client : Option Text)
    → SlotsFit capacity loop
    → SlotsFit capacity (dispatch capacity peer loop client).0
SlotsFit-dispatch capacity peer loop none h = h
SlotsFit-dispatch capacity peer loop (some agent_id) h =
    elim (Bool-cases (text_eq peer.server_name (probe_server_name_for_client agent_id))) [
      | inl e ↦ rw e (
          SlotsFit-probe capacity agent_id peer false (answers_probe agent_id) over_capacity loop h)
      | inr e ↦ rw e (agent (register agent_id peer.conn loop.conns))
    ]
  where
    agent :
        (conns : Option (List (Text × ℕ)))
        → SlotsFit capacity (accept_agent capacity agent_id peer loop conns).0
    agent (some conns) = h
    agent none =
        SlotsFit-probe capacity agent_id peer true (answers_legacy_probe agent_id) already_connected
          loop h

SlotsFit-end_probe :
    (capacity conn : ℕ) (loop : Loop) (s : Option Started)
    → find conn loop.probing ≡ s
    → SlotsFit capacity loop
    → SlotsFit capacity (end_probe_of conn loop s)
SlotsFit-end_probe capacity conn loop none e h = h
SlotsFit-end_probe capacity conn loop (some s) e h =
    let less = length-without conn loop.probing s e in (omega arith, omega arith)

SlotsFit-end_agent :
    (capacity conn : ℕ) (loop : Loop) (s : Option Started)
    → SlotsFit capacity loop
    → SlotsFit capacity (end_agent_of conn loop s)
SlotsFit-end_agent capacity conn loop none h = h
SlotsFit-end_agent capacity conn loop (some s) h = h

-- The slots of the probes that are taken are those of the goroutines that answer a probe, and
-- never more than MaxPendingDials, whatever arrives and ends.
pub accept_loop-SlotsFit :
    (capacity : ℕ) (clients : List (Text × Text)) (events : List Event) (loop : Loop)
    → SlotsFit capacity loop
    → SlotsFit capacity (accept_loop capacity clients events loop).loop
unfolding accept_loop accept_connection
accept_loop-SlotsFit capacity clients [] loop h = h
accept_loop-SlotsFit capacity clients (arrives peer ∷ events) loop h =
    accept_loop-SlotsFit capacity clients events _
      (SlotsFit-dispatch capacity peer loop (client_id_for_tls_state clients peer.certificates) h)
accept_loop-SlotsFit capacity clients (probe_ends conn ∷ events) loop h =
    accept_loop-SlotsFit capacity clients events _
      (SlotsFit-end_probe capacity conn loop (find conn loop.probing) refl h)
accept_loop-SlotsFit capacity clients (agent_ends conn ∷ events) loop h =
    accept_loop-SlotsFit capacity clients events _
      (SlotsFit-end_agent capacity conn loop (find conn loop.serving) h)
accept_loop-SlotsFit capacity clients (accept_fails is_done ∷ events) loop h = h
accept_loop-SlotsFit capacity clients (listener_fails ∷ events) loop h = h
accept_loop-SlotsFit capacity clients (cancels ∷ events) loop h = h
