-- ===== src/Protocol/Encode.antt =====
-- `appendString` and `WriteFrame`.
use mule.Base.{
  ℕ, ◌/◌, ◌%◌, Text, List, [], ◌∷◌, ◌++◌, length, ltb, leb, ◌==◌, if◌then◌else◌, Result, ok, err,
  ◌>>=◌, ◌>>◌, guard,
}
use mule.Protocol.Frame.{
  Frame, Error, frame_too_large, bad_frame, version, max_frame_len, type_error, valid_direction,
  names_service,
}
use mule.Protocol.Stream.{Writer, Outcome, done, failed, stuck, write_full}

-- `binary.BigEndian.PutUint16(buf, uint16(n))`.
abbrev pub put_uint16 : ℕ → Text
put_uint16 n = (n % 65536 / 256) ∷ (n % 256) ∷ []

unfoldable pub append_string : Text → Text → Result Error Text
append_string body s =
    let longer = (body ++ put_uint16 (length s)) ++ s in
    if ltb max_frame_len (length s)
    then err frame_too_large
    else if ltb max_frame_len (length longer)
    then err frame_too_large
    else ok longer

-- `if err != nil { return ErrFrameTooLarge }`.
abbrev pub or_too_large : Result Error Text → Result Error Text
or_too_large (ok body) = ok body
or_too_large (err e) = err frame_too_large

unfoldable pub append_strings : Text → List Text → Result Error Text
append_strings body [] = ok body
append_strings body (s ∷ ss) = do
  longer ← or_too_large (append_string body s)
  append_strings longer ss

-- `case TypeOpen, TypeProbe`.
unfoldable pub open_body : Frame → Text → Result Error Text
open_body f head = do
  guard (valid_direction f.direction) bad_frame
  body ← or_too_large (append_string (head ++ f.direction ∷ []) f.service)
  append_strings body (f.peer_id ∷ f.listener ∷ f.source_addr ∷ f.connection_id ∷ [])

-- The body that `WriteFrame` builds, with its last length check.
unfoldable pub frame_body : Frame → Result Error Text
frame_body f = do
  let head = version ∷ f.type ∷ []
  body ←
      (if names_service f.type
        then open_body f head
        else if f.type == type_error
        then ok (head ++ f.code ∷ [])
        else ok head)
  guard (leb (length body) max_frame_len) frame_too_large
  ok body

-- `if err := writeFull(w, hdr[:]); err != nil { return err }; return writeFull(w, body)`.
abbrev pub then_body : Text → Writer × Outcome → Writer × Outcome
then_body body (w, done) = write_full w body
then_body body (w, failed e) = (w, failed e)
then_body body (w, stuck) = (w, stuck)

abbrev pub write_body : Writer → Result Error Text → Writer × Outcome
write_body w (err e) = (w, failed e)
write_body w (ok body) = then_body body (write_full w (put_uint16 (length body)))

unfoldable pub write_frame : Writer → Frame → Writer × Outcome
write_frame w f = write_body w (frame_body f)
