-- ===== src/Transport/Runs.antt =====
-- Concrete connections and schedules, and the theorems at them.
use mule.Base.{
  ℕ, ◌≡◌, refl, inl, inr, Text, true, false, [], ◌∷◌, List, Option, none, some, codes, arith,
}
use mule.Runtime.Program.{Count}
use mule.Transport.{End, Pipe, Side, a_side, b_side, interleave, pipe}
use mule.Transport.Prefix.{SentPart, pipe-returns}
use mule.Transport.Whole.{IsOpen, AllSent, pipe-delivers}

-- A TCP connection and a QUIC stream, whose `Close` ends its writing side only.
abbrev tcp : End
tcp = record {
  incoming = codes "hel" ∷ codes "lo" ∷ [];
  room = none;
  has_close_write = true;
  close_ends_reads = true;
  delivered = [];
  write_closed = false;
  reads_ended = false;
  closed = false;
}

abbrev stream : End
stream = record tcp {
  incoming = codes "welcome" ∷ [];
  has_close_write = false;
  close_ends_reads = false;
}

abbrev schedule : List Side
schedule = a_side ∷ a_side ∷ a_side ∷ b_side ∷ a_side ∷ b_side ∷ b_side ∷ []

tcp-IsOpen : IsOpen tcp
tcp-IsOpen = (refl, refl, refl, inl refl)

stream-IsOpen : IsOpen stream
stream-IsOpen = (refl, refl, refl, inr refl)

pipe-delivers_example :
    (count : Count) × (left : Pipe) × (pipe schedule tcp stream ≡ some (count, left))
    × AllSent tcp stream left.b count.a_to_b
    × AllSent stream tcp left.a count.b_to_a
pipe-delivers_example =
    pipe-delivers schedule tcp stream (omega arith) (omega arith) tcp-IsOpen stream-IsOpen

-- Its writes fail after four bytes.
abbrev failing : End
failing = record stream { room = some 4 }

pipe-returns_example :
    (count : Count) × (left : Pipe) × (pipe schedule tcp failing ≡ some (count, left))
    × SentPart tcp failing left.b count.a_to_b
    × SentPart failing tcp left.a count.b_to_a
    × (left.a.closed ≡ true)
    × (left.b.closed ≡ true)
pipe-returns_example = pipe-returns schedule tcp failing (omega arith) (omega arith)

abbrev results : Option (Count × Pipe) → Option (ℕ × ℕ × Text × Text)
results none = none
results (some (count, left)) = some (count.a_to_b, count.b_to_a, left.a.delivered, left.b.delivered)

short : results (pipe schedule tcp failing) ≡ some (4, 7, codes "welcome", codes "hell")
unfolding pipe interleave
short = refl

unfinished : results (pipe (a_side ∷ b_side ∷ a_side ∷ []) tcp stream) ≡ none
unfolding pipe interleave
unfinished = refl

-- Where `Close` ends the reads too, what has not been read yet is lost.
cut_off :
    results (
      pipe
        (a_side ∷ a_side ∷ a_side ∷ a_side ∷ b_side ∷ b_side ∷ [])
        tcp
        (record stream { close_ends_reads = true }))
    ≡ some (5, 0, [], codes "hello")
unfolding pipe interleave
cut_off = refl
