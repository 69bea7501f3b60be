-- ===== src/Agent/Waiting/Runs.antt =====
-- Concrete waits for a connection.
use mule.Base.{suc, ◌+◌, ◌*◌, ◌≡◌, ◌==◌, leb, refl, false, none, some, if◌then◌else◌, arith}
use mule.Agent.Waiting.{Turns, Found, connected, not_connected, canceled, get_conn, get_conn_from}
use mule.Agent.Waiting.Bound.{Ticks, Decides, turns_before, get_conn-ends}

-- Turns of 30 ms, with a connection from the fourth on.
abbrev slow_turns : Turns
slow_turns = record {
  conn = λ i. if leb 3 i then some 7 else none;
  now = λ i. 1000 + i * 30000000;
  cancelled = λ i. false;
}

slow_turns-Ticks : Ticks slow_turns 1000
slow_turns-Ticks = (omega arith, λ i. omega arith)

get_conn-ends_example :
    (outcome : Found) × (get_conn (suc (turns_before 100000000)) slow_turns 1000 100000000
      ≡ some outcome)
    × Decides slow_turns 100001000 0 (turns_before 100000000) outcome
get_conn-ends_example = get_conn-ends slow_turns 1000 100000000 slow_turns-Ticks

waits_for_it : get_conn 6 slow_turns 1000 100000000 ≡ some (connected 7)
unfolding get_conn get_conn_from
waits_for_it = refl

gives_up : get_conn 4 slow_turns 1000 50000000 ≡ some not_connected
unfolding get_conn get_conn_from
gives_up = refl

is_canceled :
    get_conn 4 (record slow_turns { cancelled = λ i. i == 1 }) 1000 100000000 ≡ some canceled
unfolding get_conn get_conn_from
is_canceled = refl
