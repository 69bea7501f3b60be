-- ===== src/Transport.antt =====
-- internal/transport/proxy.go: `Pipe`, two goroutines that copy between two connections, and what
-- they leave of the connections.
pub mod Legs
pub mod Prefix
pub mod Carrying
pub mod Whole
mod Runs
use mule.Base.{
  ℕ, ◌+◌, ◌-◌, ◌%◌, ◌^◌, ◌==◌, min, Text, Bool, true, false, ◌||◌, ◌&&◌, [], ◌∷◌, ◌++◌, List,
  Option, none, some, length, take, if◌then◌else◌,
}
use mule.Runtime.Program.{Count}

-- A connection: what its reads give before they fail or end, how many bytes its writes take before
-- they fail (`none` is no bound), and what has been written to it. `Close` ends the writing side,
-- and the reading side of some.
pub record End : Type 0 where
  pub incoming : List Text
  pub room : Option ℕ
  pub has_close_write : Bool
  pub close_ends_reads : Bool
  pub delivered : Text
  pub write_closed : Bool
  pub reads_ended : Bool
  pub closed : Bool

abbrev pub read : Bool → List Text → Option (Text × List Text)
read true incoming = none
read false [] = none
read false (chunk ∷ incoming) = some (chunk, incoming)

-- How much of a write is taken.
abbrev pub taken : Bool → Option ℕ → ℕ → ℕ
taken true room n = 0
taken false none n = n
taken false (some room) n = min room n

abbrev pub room_after : ℕ → Option ℕ → Option ℕ
room_after n none = none
room_after n (some room) = some (room - n)

abbrev pub write : ℕ → Text → End → End
write n chunk e = record e { room = room_after n e.room; delivered = e.delivered ++ take n chunk }

abbrev pub close : End → End
close e = record e {
  write_closed = true;
  reads_ended = e.reads_ended || e.close_ends_reads;
  closed = true;
}

-- A connection that has `CloseWrite` is closed by it; all have `Close`.
abbrev pub close_write : End → End
close_write e = if e.has_close_write then record e { write_closed = true } else close e

-- Where a copying goroutine stands: in `io.Copy`, before `closeWrite`, or at its end.
pub data Copier : Type 0 where
  copying closing done : Copier

-- What a copying goroutine works on, with its counter.
pub record Leg : Type 0 where
  pub copier : Copier
  pub count : ℕ
  pub src : End
  pub dst : End

-- A write through the `countWriter`, with `io.Copy` ending at a short one.
abbrev pub count_write : ℕ → Text → List Text → Leg → Leg
count_write n chunk left leg = record leg {
  copier = if n == length chunk then copying else closing;
  count = (leg.count + n) % 2 ^ 64;
  src = record leg.src { incoming = left };
  dst = write n chunk leg.dst;
}

abbrev pub copy_chunk : Option (Text × List Text) → Leg → Leg
copy_chunk none leg = record leg { copier = closing }
copy_chunk (some (chunk, left)) leg =
    count_write (taken leg.dst.write_closed leg.dst.room (length chunk)) chunk left leg

abbrev pub turn_at : Copier → Leg → Leg
turn_at copying leg = copy_chunk (read leg.src.reads_ended leg.src.incoming) leg
turn_at closing leg = record leg { copier = done; dst = close_write leg.dst }
turn_at done leg = leg

abbrev pub turn : Leg → Leg
turn leg = turn_at leg.copier leg

-- Both goroutines, on the two connections.
pub record Pipe : Type 0 where
  pub a : End
  pub b : End
  pub a_to_b : ℕ
  pub b_to_a : ℕ
  pub forward : Copier
  pub backward : Copier

pub data Side : Type 0 where
  a_side b_side : Side

abbrev pub forward_leg : Pipe → Leg
forward_leg p = record { copier = p.forward; count = p.a_to_b; src = p.a; dst = p.b }

abbrev pub backward_leg : Pipe → Leg
backward_leg p = record { copier = p.backward; count = p.b_to_a; src = p.b; dst = p.a }

abbrev pub with_forward : Leg → Pipe → Pipe
with_forward leg p = record p { a = leg.src; b = leg.dst; a_to_b = leg.count; forward = leg.copier }

abbrev pub with_backward : Leg → Pipe → Pipe
with_backward leg p = record p {
  b = leg.src;
  a = leg.dst;
  b_to_a = leg.count;
  backward = leg.copier;
}

-- The goroutine that reads from the side makes a turn.
abbrev pub pipe_turn : Side → Pipe → Pipe
pipe_turn a_side p = with_forward (turn (forward_leg p)) p
pipe_turn b_side p = with_backward (turn (backward_leg p)) p

unfoldable pub interleave : List Side → Pipe → Pipe
interleave [] p = p
interleave (side ∷ schedule) p = interleave schedule (pipe_turn side p)

abbrev pub start : End → End → Pipe
start a b = record { a = a; b = b; a_to_b = 0; b_to_a = 0; forward = copying; backward = copying }

-- `wg.Wait()` is passed when both goroutines are at their ends.
abbrev pub after_wait : Copier → Copier → Pipe → Option (Count × Pipe)
after_wait done done p =
    some
      (record { a_to_b = p.a_to_b; b_to_a = p.b_to_a }, record p { a = close p.a; b = close p.b })
after_wait forward backward p = none

-- `none` is a `Pipe` that has not returned within the schedule.
unfoldable pub pipe : List Side → End → End → Option (Count × Pipe)
unfolding interleave
pipe schedule a b = let p = interleave schedule (start a b) in after_wait p.forward p.backward p
