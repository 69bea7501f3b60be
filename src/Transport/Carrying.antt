-- ===== src/Transport/Carrying.antt =====
-- One copying goroutine between connections whose writes do not fail and which can be closed for
-- writing alone.
use mule.Base.{
  ℕ, ◌%◌, ◌^◌, ◌≡◌, ◌⊎◌, inl, inr, refl, sym, ap, ◌∙◌, Text, Bool, true, false, [], ◌∷◌, ◌++◌, List,
  Option, none, some, length, take, arith, append_assoc, subst, length-append, ◌==◌, if◌then◌else◌,
}
use mule.Transport.{
  End, read, taken, close, close_write, Copier, copying, closing, done, Leg, count_write,
  copy_chunk, turn_at, turn,
}
use mule.Transport.Legs.{concat, SameReads, SameWrites}

-- Closing the writing side leaves the reading side open.
abbrev pub HalfCloses : End → Type 0
HalfCloses e = (e.has_close_write ≡ true) ⊎ (e.close_ends_reads ≡ false)

abbrev pub Ready : Copier → List Text → Bool → Type 0
Ready copying incoming write_closed = write_closed ≡ false
Ready closing incoming write_closed = incoming ≡ []
Ready done incoming write_closed = incoming ≡ []

-- All that has been read has been sent, and a goroutine ends only when there is no more.
abbrev pub Carries : (all before : Text) → Leg → Type 0
Carries all before leg =
    (sent : Text) × (leg.dst.delivered ≡ before ++ sent)
    × (leg.count ≡ length sent % 2 ^ 64)
    × (all ≡ sent ++ concat leg.src.incoming)
    × (leg.src.reads_ended ≡ false)
    × (leg.dst.room ≡ none)
    × Ready leg.copier leg.src.incoming leg.dst.write_closed

take_whole : (s : Text) → take (length s) s ≡ s
take_whole [] = refl
take_whole (c ∷ s) = ap (λ t. c ∷ t) (take_whole s)

equal_self : (n : ℕ) → (n == n) ≡ true
equal_self n = ground arith

Carries-write :
    (all before : Text) (chunk : Text) (left : List Text) (leg : Leg)
    → leg.src.incoming ≡ chunk ∷ left
    → leg.copier ≡ copying
    → Carries all before leg
    → Carries all before (count_write (length chunk) chunk left leg)
Carries-write all before chunk left leg e c (sent, there, counted, split, reads, room, ready) = (
  sent ++ chunk,
  rw (there, take_whole chunk) (append_assoc before sent chunk),
  omega (arith, length-append sent chunk),
  split ∙ rw e (sym (append_assoc sent chunk (concat left))),
  reads,
  rw room,
  rw (equal_self (length chunk)) (rw c at ready),
)

open_read :
    (ended : Bool) (chunk : Text) (left : List Text)
    → ended ≡ false
    → some (chunk, left) ≡ read ended (chunk ∷ left)
open_read ended chunk left h = rw h

open_write :
    (shut : Bool) (room : Option ℕ) (n : ℕ) → shut ≡ false → room ≡ none → n ≡ taken shut room n
open_write shut room n h e = rw (h, e)

Carries-chunk :
    (all before : Text) (chunk : Text) (left : List Text) (leg : Leg)
    → leg.src.incoming ≡ chunk ∷ left
    → leg.copier ≡ copying
    → Carries all before leg
    → Carries all before (copy_chunk (some (chunk, left)) leg)
Carries-chunk all before chunk left leg e c (sent, there, counted, split, reads, room, ready) =
    subst (λ n. Carries all before (count_write n chunk left leg))
      (open_write leg.dst.write_closed leg.dst.room (length chunk) (rw c at ready) room)
      (Carries-write all before chunk left leg e c
        (sent, there, counted, split, reads, room, ready))

Carries-end :
    (all before : Text) (ended : Bool) (leg : Leg)
    → leg.src.incoming ≡ []
    → Carries all before leg
    → Carries all before (copy_chunk (read ended []) leg)
Carries-end all before true leg e (sent, there, counted, split, reads, room, ready) =
    (sent, there, counted, split, reads, room, e)
Carries-end all before false leg e (sent, there, counted, split, reads, room, ready) =
    (sent, there, counted, split, reads, room, e)

Carries-read :
    (all before : Text) (incoming : List Text) (leg : Leg)
    → leg.src.incoming ≡ incoming
    → leg.copier ≡ copying
    → Carries all before leg
    → Carries all before (copy_chunk (read leg.src.reads_ended incoming) leg)
Carries-read all before [] leg e c h = Carries-end all before leg.src.reads_ended leg e h
Carries-read all before (chunk ∷ left) leg e c (sent, there, counted, split, reads, room, ready) =
    subst (λ o. Carries all before (copy_chunk o leg))
      (open_read leg.src.reads_ended chunk left reads)
      (Carries-chunk all before chunk left leg e c
        (sent, there, counted, split, reads, room, ready))

close_write_writes :
    (e : End) → ((close_write e).delivered ≡ e.delivered) × ((close_write e).room ≡ e.room)
close_write_writes e = either e.has_close_write
  where
    either :
        (test : Bool)
        → let f = if test then record e { write_closed = true } else close e in
          (f.delivered ≡ e.delivered) × (f.room ≡ e.room)
    either true = (refl, refl)
    either false = (refl, refl)

Carries-turn_at :
    (all before : Text) (c : Copier) (leg : Leg)
    → leg.copier ≡ c
    → Carries all before leg
    → Carries all before (turn_at c leg)
Carries-turn_at all before copying leg e h = Carries-read all before leg.src.incoming leg refl e h
Carries-turn_at all before closing leg e (sent, there, counted, split, reads, room, ready) =
    let (d, r) = close_write_writes leg.dst in
    (sent, d ∙ there, counted, split, reads, r ∙ room, rw e at ready)
Carries-turn_at all before done leg e h = h

pub Carries-turn :
    (all before : Text) (leg : Leg) → Carries all before leg → Carries all before (turn leg)
Carries-turn all before leg = Carries-turn_at all before leg.copier leg refl

pub Carries-others :
    (all before : Text) (leg : Leg) (src dst : End)
    → SameReads leg.src src
    → SameWrites leg.dst dst
    → src.reads_ended ≡ false
    → Carries all before leg
    → Carries all before (record leg { src = src; dst = dst })
Carries-others all before leg src dst same_src same_dst reads
      (sent, there, counted, split, old, room, ready) =
    (
      sent,
      same_dst.0 ∙ there,
      counted,
      split ∙ rw (same_src.0),
      reads,
      same_dst.1 ∙ room,
      rw (same_src.0, same_dst.2) ready,
    )

still_reads : (e : End) → HalfCloses e → e.reads_ended ≡ false → (close_write e).reads_ended ≡ false
still_reads e (inl h) reads = rw h reads
still_reads e (inr h) reads = ground arith

pub still_reads_turn :
    (leg : Leg)
    → HalfCloses leg.dst
    → leg.dst.reads_ended ≡ false
    → (turn leg).dst.reads_ended ≡ false
still_reads_turn leg half reads = at leg.copier
  where
    part : (o : Option (Text × List Text)) → (copy_chunk o leg).dst.reads_ended ≡ false
    part none = reads
    part (some (chunk, left)) = reads

    at : (c : Copier) → (turn_at c leg).dst.reads_ended ≡ false
    at copying = part (read leg.src.reads_ended leg.src.incoming)
    at closing = still_reads leg.dst half reads
    at done = reads
