-- ===== src/Transport/Legs.antt =====
-- One copying goroutine of `Pipe`, turn by turn.
use mule.Base.{
  ℕ, suc, zero, ◌+◌, ◌-◌, ◌%◌, ◌^◌, ◌≤◌, ◌==◌, ◌≡◌, refl, sym, ap, ◌∙◌, Text, Bool, true, false, [],
  ◌∷◌, ◌++◌, List, Option, none, some, length, take, drop, if◌then◌else◌, Bool-cases, inl, inr,
  arith, append_assoc, take-append-drop, length-take, length-append,
}
use mule.Transport.{
  End, read, taken, close, close_write, Copier, copying, closing, done, Leg, count_write,
  copy_chunk, turn_at, turn,
}

abbrev pub concat : List Text → Text
concat [] = []
concat (chunk ∷ chunks) = chunk ++ concat chunks

-- Of all that the source had, what has been sent comes first, then what a short write has lost,
-- then what has not been read; the target has what was sent, behind what it had before.
abbrev pub Copied : (all before : Text) → Leg → Type 0
Copied all before leg =
    (sent : Text) × (lost : Text) × (leg.dst.delivered ≡ before ++ sent)
    × (leg.count ≡ length sent % 2 ^ 64)
    × (all ≡ sent ++ (lost ++ concat leg.src.incoming))
    × (leg.copier ≡ copying → lost ≡ [])

-- How many turns are left.
abbrev pub remaining : Copier → List Text → ℕ
remaining copying incoming = length incoming + 2
remaining closing incoming = 1
remaining done incoming = 0

-- The parts of a connection that a goroutine reading from it leaves alone.
abbrev pub SameWrites : End → End → Type 0
SameWrites e f =
    (f.delivered ≡ e.delivered)
    × (f.room ≡ e.room)
    × (f.write_closed ≡ e.write_closed)
    × (f.reads_ended ≡ e.reads_ended)
    × (f.has_close_write ≡ e.has_close_write)
    × (f.close_ends_reads ≡ e.close_ends_reads)

-- The parts that one writing to it leaves alone.
abbrev pub SameReads : End → End → Type 0
SameReads e f =
    (f.incoming ≡ e.incoming)
    × (f.has_close_write ≡ e.has_close_write)
    × (f.close_ends_reads ≡ e.close_ends_reads)

close_write_keeps : (e : End) → SameReads e (close_write e)
close_write_keeps e = either e.has_close_write
  where
    either :
        (test : Bool) → SameReads e (if test then record e { write_closed = true } else close e)
    either true = (refl, refl, refl)
    either false = (refl, refl, refl)

pub src-turn : (leg : Leg) → SameWrites leg.src (turn leg).src
src-turn leg = at leg.copier
  where
    part : (o : Option (Text × List Text)) → SameWrites leg.src (copy_chunk o leg).src
    part none = (refl, refl, refl, refl, refl, refl)
    part (some (chunk, left)) = (refl, refl, refl, refl, refl, refl)

    at : (c : Copier) → SameWrites leg.src (turn_at c leg).src
    at copying = part (read leg.src.reads_ended leg.src.incoming)
    at closing = (refl, refl, refl, refl, refl, refl)
    at done = (refl, refl, refl, refl, refl, refl)

pub dst-turn : (leg : Leg) → SameReads leg.dst (turn leg).dst
dst-turn leg = at leg.copier
  where
    part : (o : Option (Text × List Text)) → SameReads leg.dst (copy_chunk o leg).dst
    part none = (refl, refl, refl)
    part (some (chunk, left)) = (refl, refl, refl)

    at : (c : Copier) → SameReads leg.dst (turn_at c leg).dst
    at copying = part (read leg.src.reads_ended leg.src.incoming)
    at closing = close_write_keeps leg.dst
    at done = (refl, refl, refl)

remaining_after :
    (test : Bool) (left : List Text)
    → remaining (if test then copying else closing) left ≤ length left + 2
remaining_after true left = omega arith
remaining_after false left = omega arith

remaining-read :
    (ended : Bool) (incoming : List Text) (leg : Leg)
    → leg.src.incoming ≡ incoming
    → remaining
        (copy_chunk (read ended incoming) leg).copier
        (copy_chunk (read ended incoming) leg).src.incoming
      ≤ length incoming + 1
remaining-read true incoming leg e = omega arith
remaining-read false [] leg e = omega arith
remaining-read false (chunk ∷ left) leg e =
    let after =
      remaining_after (taken leg.dst.write_closed leg.dst.room (length chunk) == length chunk)
        left in
    omega arith

remaining-turn_at :
    (c : Copier) (leg : Leg)
    → leg.copier ≡ c
    → remaining (turn_at c leg).copier (turn_at c leg).src.incoming
      ≤ remaining c leg.src.incoming - 1
remaining-turn_at copying leg e =
    let less = remaining-read leg.src.reads_ended leg.src.incoming leg refl in omega arith
remaining-turn_at closing leg e = omega arith
remaining-turn_at done leg e = rw e (omega arith)

pub remaining-turn :
    (leg : Leg)
    → remaining (turn leg).copier (turn leg).src.incoming
      ≤ remaining leg.copier leg.src.incoming - 1
remaining-turn leg = remaining-turn_at leg.copier leg refl

taken-bound : (shut : Bool) (room : Option ℕ) (n : ℕ) → taken shut room n ≤ n
taken-bound true room n = omega arith
taken-bound false none n = omega arith
taken-bound false (some room) n = omega arith

drop_all : (n : ℕ) (s : Text) → n ≡ length s → drop n s ≡ []
drop_all zero [] h = refl
drop_all zero (c ∷ s) h = absurd (omega arith)
drop_all (suc n) [] h = refl
drop_all (suc n) (c ∷ s) h = drop_all n s (omega arith)

carries_on :
    (n : ℕ) (chunk : Text)
    → (if n == length chunk then copying else closing) ≡ copying
    → drop n chunk ≡ []
carries_on n chunk h = elim (Bool-cases (n == length chunk)) [
  | inl e ↦ drop_all n chunk (ground arith)
  | inr e ↦ let stops = rw e at h in absurd (cc)
]

regroup :
    (sent chunk rest : Text) (n : ℕ)
    → sent ++ (chunk ++ rest) ≡ sent ++ take n chunk ++ (drop n chunk ++ rest)
regroup sent chunk rest n =
    ap (λ t. sent ++ (t ++ rest)) (sym (take-append-drop n chunk))
    ∙ ap (λ t. sent ++ t) (append_assoc (take n chunk) (drop n chunk) rest)
    ∙ sym (append_assoc sent (take n chunk) (drop n chunk ++ rest))

Copied-write :
    (all before : Text) (n : ℕ) (chunk : Text) (left : List Text) (leg : Leg)
    → n ≤ length chunk
    → (sent : Text) → leg.dst.delivered ≡ before ++ sent
    → leg.count ≡ length sent % 2 ^ 64
    → all ≡ sent ++ (chunk ++ concat left)
    → Copied all before (count_write n chunk left leg)
Copied-write all before n chunk left leg bound sent there counted split = (
  sent ++ take n chunk,
  drop n chunk,
  rw there (append_assoc before sent (take n chunk)),
  omega (arith, length-append sent (take n chunk), length-take n chunk),
  split ∙ regroup sent chunk (concat left) n,
  carries_on n chunk,
)

Copied-read :
    (all before : Text) (ended : Bool) (incoming : List Text) (leg : Leg)
    → leg.src.incoming ≡ incoming
    → leg.copier ≡ copying
    → Copied all before leg
    → Copied all before (copy_chunk (read ended incoming) leg)
Copied-read all before true incoming leg e c (sent, lost, there, counted, split, none_lost) =
    (sent, lost, there, counted, split, λ h. absurd (cc))
Copied-read all before false [] leg e c (sent, lost, there, counted, split, none_lost) =
    (sent, lost, there, counted, split, λ h. absurd (cc))
Copied-read all before false (chunk ∷ left) leg e c (sent, lost, there, counted, split, none_lost) =
    Copied-write all before (taken leg.dst.write_closed leg.dst.room (length chunk)) chunk left leg
      (taken-bound leg.dst.write_closed leg.dst.room (length chunk)) sent there counted
      (split ∙ rw (none_lost c, e))

close_write_delivered : (e : End) → (close_write e).delivered ≡ e.delivered
close_write_delivered e = either e.has_close_write
  where
    either :
        (test : Bool)
        → (if test then record e { write_closed = true } else close e).delivered ≡ e.delivered
    either true = refl
    either false = refl

Copied-turn_at :
    (all before : Text) (c : Copier) (leg : Leg)
    → leg.copier ≡ c
    → Copied all before leg
    → Copied all before (turn_at c leg)
Copied-turn_at all before copying leg e h =
    Copied-read all before leg.src.reads_ended leg.src.incoming leg refl e h
Copied-turn_at all before closing leg e (sent, lost, there, counted, split, none_lost) =
    (sent, lost, close_write_delivered leg.dst ∙ there, counted, split, λ h. absurd (cc))
Copied-turn_at all before done leg e h = h

pub Copied-turn :
    (all before : Text) (leg : Leg) → Copied all before leg → Copied all before (turn leg)
Copied-turn all before leg = Copied-turn_at all before leg.copier leg refl

-- What the other goroutine may change.
pub Copied-others :
    (all before : Text) (leg : Leg) (src dst : End)
    → src.incoming ≡ leg.src.incoming
    → dst.delivered ≡ leg.dst.delivered
    → Copied all before leg
    → Copied all before (record leg { src = src; dst = dst })
Copied-others all before leg src dst i d (sent, lost, there, counted, split, none_lost) =
    (sent, lost, d ∙ there, counted, split ∙ rw i, none_lost)
