-- ===== src/Transport/Prefix.antt =====
-- Whatever the schedule and whatever fails: what `Pipe` delivers, what it counts, and when it
-- returns.
use mule.Base.{
  ℕ, suc, ◌+◌, ◌-◌, ◌%◌, ◌^◌, ◌≤◌, ◌≡◌, refl, sym, ap, ◌∙◌, Text, true, [], ◌∷◌, ◌++◌, List, some,
  length, arith, append-nil,
}
use mule.Runtime.Program.{Count}
use mule.Transport.{
  End, close, Copier, copying, closing, done, Leg, turn, Pipe, Side, a_side, b_side, forward_leg,
  backward_leg, pipe_turn, interleave, start, after_wait, pipe,
}
use mule.Transport.Legs.{
  concat, Copied, remaining, src-turn, dst-turn, remaining-turn, Copied-turn, Copied-others,
}

-- Both goroutines, from what the connections were.
abbrev pub BothCopied : End → End → Pipe → Type 0
BothCopied a b p =
    Copied (concat a.incoming) b.delivered (forward_leg p)
    × Copied (concat b.incoming) a.delivered (backward_leg p)

BothCopied-turn :
    (a b : End) (side : Side) (p : Pipe) → BothCopied a b p → BothCopied a b (pipe_turn side p)
BothCopied-turn a b a_side p (there, back) =
    let leg = forward_leg p in
    (
      Copied-turn (concat a.incoming) b.delivered leg there,
      Copied-others (concat b.incoming) a.delivered (backward_leg p) (turn leg).dst (turn leg).src
          (dst-turn leg).0 (src-turn leg).0 back,
    )
BothCopied-turn a b b_side p (there, back) =
    let leg = backward_leg p in
    (
      Copied-others (concat a.incoming) b.delivered (forward_leg p) (turn leg).dst (turn leg).src
          (dst-turn leg).0 (src-turn leg).0 there,
      Copied-turn (concat b.incoming) a.delivered leg back,
    )

pub BothCopied-interleave :
    (a b : End) (schedule : List Side) (p : Pipe)
    → BothCopied a b p
    → BothCopied a b (interleave schedule p)
unfolding interleave
BothCopied-interleave a b [] p h = h
BothCopied-interleave a b (side ∷ schedule) p h =
    BothCopied-interleave a b schedule (pipe_turn side p) (BothCopied-turn a b side p h)

-- How many turns a schedule gives to the goroutine that reads from a side.
abbrev pub turns_of : Side → List Side → ℕ
turns_of side [] = 0
turns_of a_side (a_side ∷ schedule) = suc (turns_of a_side schedule)
turns_of a_side (b_side ∷ schedule) = turns_of a_side schedule
turns_of b_side (a_side ∷ schedule) = turns_of b_side schedule
turns_of b_side (b_side ∷ schedule) = suc (turns_of b_side schedule)

abbrev pub forward_left : Pipe → ℕ
forward_left p = remaining p.forward p.a.incoming

abbrev pub backward_left : Pipe → ℕ
backward_left p = remaining p.backward p.b.incoming

left-interleave :
    (schedule : List Side) (p : Pipe)
    → (forward_left (interleave schedule p) ≤ forward_left p - turns_of a_side schedule)
      × (backward_left (interleave schedule p) ≤ backward_left p - turns_of b_side schedule)
unfolding interleave
left-interleave [] p = (omega arith, omega arith)
left-interleave (a_side ∷ schedule) p =
    let (there, back) = left-interleave schedule (pipe_turn a_side p) in
    let less = remaining-turn (forward_leg p) in
    let same = ap (remaining p.backward) (dst-turn (forward_leg p)).0 in (omega arith, omega arith)
left-interleave (b_side ∷ schedule) p =
    let (there, back) = left-interleave schedule (pipe_turn b_side p) in
    let less = remaining-turn (backward_leg p) in
    let same = ap (remaining p.forward) (dst-turn (backward_leg p)).0 in (omega arith, omega arith)

is_done : (c : Copier) (incoming : List Text) → remaining c incoming ≤ 0 → c ≡ done
is_done copying incoming h = absurd (omega arith)
is_done closing incoming h = absurd (omega arith)
is_done done incoming h = refl

pub both_done :
    (schedule : List Side) (a b : End)
    → length a.incoming + 2 ≤ turns_of a_side schedule
    → length b.incoming + 2 ≤ turns_of b_side schedule
    → ((interleave schedule (start a b)).forward ≡ done)
      × ((interleave schedule (start a b)).backward ≡ done)
both_done schedule a b enough_a enough_b =
    let p = interleave schedule (start a b) in
    let (there, back) = left-interleave schedule (start a b) in
    (is_done p.forward p.a.incoming (omega arith), is_done p.backward p.b.incoming (omega arith))

-- What one direction has come to: a part of what there was to read, from its start, is written
-- behind what the target had, and counted modulo 2^64.
abbrev pub SentPart : End → End → End → ℕ → Type 0
SentPart src before after count =
    (sent : Text) × (rest : Text) × (after.delivered ≡ before.delivered ++ sent)
    × (concat src.incoming ≡ sent ++ rest)
    × (count ≡ length sent % 2 ^ 64)

sent_part :
    (src before : End) (leg : Leg)
    → Copied (concat src.incoming) before.delivered leg
    → SentPart src before leg.dst leg.count
sent_part src before leg (sent, lost, there, counted, split, none_lost) =
    (sent, lost ++ concat leg.src.incoming, there, split, counted)

start_copied : (a b : End) → BothCopied a b (start a b)
start_copied a b = (
  ([], [], sym (append-nil b.delivered), omega arith, refl, λ h. refl),
  ([], [], sym (append-nil a.delivered), omega arith, refl, λ h. refl),
)

pub returned :
    (p : Pipe)
    → p.forward ≡ done
    → p.backward ≡ done
    → after_wait p.forward p.backward p
      ≡ some (
        record { a_to_b = p.a_to_b; b_to_a = p.b_to_a },
        record p { a = close p.a; b = close p.b },
      )
returned p there back =
    ap (λ c. after_wait c p.backward p) there ∙ ap (λ c. after_wait done c p) back

-- Whatever fails, Pipe returns under every schedule that gives each goroutine enough turns, with
-- both connections closed; what each side has been sent is the start of what the other had, and
-- the counts are the bytes that were sent, modulo 2^64.
pub pipe-returns :
    (schedule : List Side) (a b : End)
    → length a.incoming + 2 ≤ turns_of a_side schedule
    → length b.incoming + 2 ≤ turns_of b_side schedule
    → (count : Count) × (left : Pipe) × (pipe schedule a b ≡ some (count, left))
      × SentPart a b left.b count.a_to_b
      × SentPart b a left.a count.b_to_a
      × (left.a.closed ≡ true)
      × (left.b.closed ≡ true)
unfolding pipe
pipe-returns schedule a b enough_a enough_b =
    let p = interleave schedule (start a b) in
    let (there, back) = both_done schedule a b enough_a enough_b in
    let (sent, received) = BothCopied-interleave a b schedule (start a b) (start_copied a b) in
    (
      record { a_to_b = p.a_to_b; b_to_a = p.b_to_a },
      record p { a = close p.a; b = close p.b },
      returned p there back,
      sent_part a b (forward_leg p) sent,
      sent_part b a (backward_leg p) received,
      refl,
      refl,
    )
