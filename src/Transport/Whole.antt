-- ===== src/Transport/Whole.antt =====
-- `Pipe` between connections whose writes do not fail and which can be closed for writing alone.
use mule.Base.{
  ℕ, ◌+◌, ◌%◌, ◌^◌, ◌≤◌, ◌≡◌, inl, inr, refl, sym, ap, ◌∙◌, false, [], ◌∷◌, ◌++◌, List, none, some,
  length, arith, append-nil,
}
use mule.Runtime.Program.{Count}
use mule.Transport.{
  End, close, done, Leg, turn, Pipe, Side, a_side, b_side, forward_leg, backward_leg, pipe_turn,
  interleave, start, pipe,
}
use mule.Transport.Legs.{concat, src-turn, dst-turn}
use mule.Transport.Prefix.{turns_of, both_done, returned}
use mule.Transport.Carrying.{HalfCloses, Carries, Carries-turn, Carries-others, still_reads_turn}

HalfCloses-same :
    (e f : End)
    → f.has_close_write ≡ e.has_close_write
    → f.close_ends_reads ≡ e.close_ends_reads
    → HalfCloses e
    → HalfCloses f
HalfCloses-same e f h c (inl half) = inl (h ∙ half)
HalfCloses-same e f h c (inr half) = inr (c ∙ half)

BothCarry : End → End → Pipe → Type 0
BothCarry a b p =
    Carries (concat a.incoming) b.delivered (forward_leg p)
    × Carries (concat b.incoming) a.delivered (backward_leg p)
    × HalfCloses p.a
    × HalfCloses p.b

BothCarry-turn :
    (a b : End) (side : Side) (p : Pipe) → BothCarry a b p → BothCarry a b (pipe_turn side p)
unfolding BothCarry
BothCarry-turn a b a_side p (there, back, half_a, half_b) =
    let leg = forward_leg p in
    let src = src-turn leg in
    let dst = dst-turn leg in
    (
      Carries-turn (concat a.incoming) b.delivered leg there,
      Carries-others (concat b.incoming) a.delivered (backward_leg p) (turn leg).dst (turn leg).src
          dst src (still_reads_turn leg half_b back.4) back,
      HalfCloses-same p.a (turn leg).src src.4 src.5 half_a,
      HalfCloses-same p.b (turn leg).dst dst.1 dst.2 half_b,
    )
BothCarry-turn a b b_side p (there, back, half_a, half_b) =
    let leg = backward_leg p in
    let src = src-turn leg in
    let dst = dst-turn leg in
    (
      Carries-others (concat a.incoming) b.delivered (forward_leg p) (turn leg).dst (turn leg).src
          dst src (still_reads_turn leg half_a there.4) there,
      Carries-turn (concat b.incoming) a.delivered leg back,
      HalfCloses-same p.a (turn leg).dst dst.1 dst.2 half_a,
      HalfCloses-same p.b (turn leg).src src.4 src.5 half_b,
    )

BothCarry-interleave :
    (a b : End) (schedule : List Side) (p : Pipe)
    → BothCarry a b p
    → BothCarry a b (interleave schedule p)
unfolding interleave
BothCarry-interleave a b [] p h = h
BothCarry-interleave a b (side ∷ schedule) p h =
    BothCarry-interleave a b schedule (pipe_turn side p) (BothCarry-turn a b side p h)

-- A connection in use: open for reading and writing, with writes that do not fail.
abbrev pub IsOpen : End → Type 0
IsOpen e = (e.room ≡ none) × (e.write_closed ≡ false) × (e.reads_ended ≡ false) × HalfCloses e

-- All that there was to read is written behind what the target had, and counted modulo 2^64.
abbrev pub AllSent : End → End → End → ℕ → Type 0
AllSent src before after count =
    (after.delivered ≡ before.delivered ++ concat src.incoming)
    × (count ≡ length (concat src.incoming) % 2 ^ 64)

all_sent :
    (src before : End) (leg : Leg)
    → leg.copier ≡ done
    → Carries (concat src.incoming) before.delivered leg
    → AllSent src before leg.dst leg.count
all_sent src before leg e (sent, there, counted, split, reads, room, ready) =
    let all = split ∙ ap (λ i. sent ++ concat i) (rw e at ready) ∙ append-nil sent in
    (
      there ∙ ap (λ t. before.delivered ++ t) (sym all),
      counted ∙ ap (λ t. length t % 2 ^ 64) (sym all),
    )

-- Between two connections in use, whose writes do not fail and which can be closed for writing
-- alone, Pipe returns under every schedule that gives each goroutine enough turns; each side has
-- then been sent all that the other had, in order, and the counts are the numbers of bytes modulo
-- 2^64.
pub pipe-delivers :
    (schedule : List Side) (a b : End)
    → length a.incoming + 2 ≤ turns_of a_side schedule
    → length b.incoming + 2 ≤ turns_of b_side schedule
    → IsOpen a
    → IsOpen b
    → (count : Count) × (left : Pipe) × (pipe schedule a b ≡ some (count, left))
      × AllSent a b left.b count.a_to_b
      × AllSent b a left.a count.b_to_a
unfolding pipe BothCarry
pipe-delivers schedule a b enough_a enough_b (room_a, writes_a, reads_a, half_a)
      (room_b, writes_b, reads_b, half_b) =
    let p = interleave schedule (start a b) in
    let (there, back) = both_done schedule a b enough_a enough_b in
    let carried = BothCarry-interleave a b schedule (start a b) (
      ([], sym (append-nil b.delivered), omega arith, refl, reads_a, room_b, writes_b),
      ([], sym (append-nil a.delivered), omega arith, refl, reads_b, room_a, writes_a),
      half_a,
      half_b,
    ) in
    (
      record { a_to_b = p.a_to_b; b_to_a = p.b_to_a },
      record p { a = close p.a; b = close p.b },
      returned p there back,
      all_sent a b (forward_leg p) there carried.0,
      all_sent b a (backward_leg p) back carried.1,
    )
