-- ===== src/Protocol/Stream.antt =====
-- `io.Reader` and `io.Writer` as `io.ReadFull` and `writeFull` see them, and `writeFull`.
use mule.Base.{
  ℕ, zero, suc, ◌+◌, Text, [], ◌∷◌, ◌++◌, Option, none, some, take, drop, length, leb,
  if◌then◌else◌, ℤ, pos, pos_part, ltb_ℤ, eq_ℤ, ◌||◌, Result, ok, err,
}
use mule.Protocol.Frame.{IoError, eof, unexpected_eof, short_write, invalid_write_count, Error, io}

-- The bytes that will arrive, and the error that follows the last of them.
pub record Reader : Type 0 where
  pub incoming : Text
  pub failure : IoError

-- The error of `io.ReadFull` on too few bytes: EOF behind a first byte is ErrUnexpectedEOF.
abbrev pub cut_short : Text → IoError → IoError
cut_short [] e = e
cut_short (b ∷ bs) eof = unexpected_eof
cut_short (b ∷ bs) e = e

-- `io.ReadFull(r, make([]byte, n))`.
unfoldable pub read_full : ℕ → Reader → Result Error (Text × Reader)
read_full n r =
    if leb n (length r.incoming)
    then ok (take n r.incoming, record r { incoming = drop n r.incoming })
    else err (io (cut_short r.incoming r.failure))

-- What one `Write` returns: a count, which the contract of io.Writer does not bound here, and nil
-- or an error.
pub record Answer : Type 0 where
  pub count : ℤ
  pub failure : Option IoError

-- A writer answers its k-th call by `reply k`; `sent` is what it took.
pub record Writer : Type 0 where
  pub reply : ℕ → Text → Answer
  pub calls : ℕ
  pub sent : Text

abbrev pub answer : Writer → Text → Answer
answer w p = w.reply w.calls p

-- The writer after `w.Write(p)`: a count of n says that it took the first n bytes.
abbrev pub after_write : Writer → Text → Writer
after_write w p = record w {
  calls = w.calls + 1;
  sent = w.sent ++ take (pos_part (answer w p).count) p;
}

-- `stuck` is no Go value: the fuel of the loop ran out.
pub data Outcome : Type 0 where
  done : Outcome
  failed : Error → Outcome
  stuck : Outcome

-- The `for len(p) > 0` of `writeFull`.
unfoldable pub write_full_loop : ℕ → Writer → Text → Writer × Outcome
write_full_loop fuel w [] = (w, done)
write_full_loop zero w (b ∷ p) = (w, stuck)
write_full_loop (suc fuel) w (b ∷ p) =
    let a = answer w (b ∷ p) in
    let w' = after_write w (b ∷ p) in
    let rest = write_full_loop fuel w' (drop (pos_part a.count) (b ∷ p)) in
    if ltb_ℤ a.count (pos 0) || ltb_ℤ (pos (length (b ∷ p))) a.count
    then (w', failed (io invalid_write_count))
    else elim a.failure [
      | some e ↦ (w', failed (io e))
      | none ↦ if eq_ℤ a.count (pos 0) then (w', failed (io short_write)) else rest
    ]

-- Each round writes a byte at least, so `length p` rounds are enough.
unfoldable pub write_full : Writer → Text → Writer × Outcome
unfolding write_full_loop
write_full w p = write_full_loop (length p) w p
