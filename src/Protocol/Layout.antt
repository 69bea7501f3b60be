-- ===== src/Protocol/Layout.antt =====
-- The wire format of a frame, as an independent description, and what the writer makes of it.
use mule.Base.{
  ◌+◌, ◌/◌, ◌%◌, ◌≤◌, ◌≡◌, Text, List, [], ◌∷◌, ◌++◌, append-nil, append_assoc, not, ◌&&◌, length,
  length-append, leb, ◌==◌, if◌then◌else◌, ok, err, arith,
}
use mule.Protocol.Frame.{
  Frame, frame_too_large, bad_frame, version, max_frame_len, type_error, valid_direction,
  names_service,
}
use mule.Protocol.Encode.{
  put_uint16, append_string, append_strings, open_body, frame_body, or_too_large,
}

-- A length in two bytes, big end first, and the text.
abbrev pub string_bytes : Text → Text
string_bytes s = (length s / 256) ∷ (length s % 256) ∷ s

abbrev pub strings_bytes : List Text → Text
strings_bytes [] = []
strings_bytes (s ∷ ss) = string_bytes s ++ strings_bytes ss

-- The names in a frame, in their order on the wire.
abbrev pub names : Frame → List Text
names f = f.service ∷ f.peer_id ∷ f.listener ∷ f.source_addr ∷ f.connection_id ∷ []

abbrev pub payload : Frame → Text
payload f =
    if names_service f.type
    then f.direction ∷ strings_bytes (names f)
    else if f.type == type_error
    then f.code ∷ []
    else []

unfoldable pub layout : Frame → Text
layout f = version ∷ f.type ∷ payload f

-- `append_string` adds the two length bytes and the text, if the whole still fits a frame.
append_string_lem :
    (body s : Text)
    → or_too_large (append_string body s) ≡ (
        if leb (length body + 2 + length s) max_frame_len
        then ok (body ++ string_bytes s)
        else err frame_too_large)
unfolding append_string
append_string_lem body s =
    ground (arith, append_assoc body (put_uint16 (length s)) s, length-append body (string_bytes s))

append_strings_lem :
    (body : Text) (ss : List Text)
    → length body ≤ max_frame_len
    → append_strings body ss ≡ (
        if leb (length (body ++ strings_bytes ss)) max_frame_len
        then ok (body ++ strings_bytes ss)
        else err frame_too_large)
unfolding append_strings
append_strings_lem body [] h = ground (arith, append-nil body)
append_strings_lem body (s ∷ ss) h = ground (
  arith,
  append_string_lem body s,
  append_strings_lem (body ++ string_bytes s) ss,
  append_assoc body (string_bytes s) (strings_bytes ss),
  length-append body (string_bytes s),
  length-append (body ++ string_bytes s) (strings_bytes ss),
)

open_body-strings :
    (f : Frame) (head : Text)
    → open_body f head ≡ (
        if valid_direction f.direction
        then append_strings (head ++ f.direction ∷ []) (names f)
        else err bad_frame)
unfolding open_body append_strings
open_body-strings f head = ground arith

-- The length check at the end of `frame_body` repeats the one that each string had.
open_body-layout :
    (f : Frame)
    → open_body f (version ∷ f.type ∷ []) ≡ (
        if not (valid_direction f.direction)
        then err bad_frame
        else let body = version ∷ f.type ∷ f.direction ∷ strings_bytes (names f) in
          if leb (length body) max_frame_len then ok body else err frame_too_large)
open_body-layout f = ground (
  arith,
  open_body-strings f (version ∷ f.type ∷ []),
  append_strings_lem (version ∷ f.type ∷ f.direction ∷ []) (names f),
)

-- A frame that names a service needs a known direction; every body is the wire format, within
-- `max_frame_len`.
pub frame_body-layout :
    (f : Frame)
    → frame_body f ≡ (
        if names_service f.type && not (valid_direction f.direction)
        then err bad_frame
        else if leb (length (layout f)) max_frame_len
        then ok (layout f)
        else err frame_too_large)
unfolding frame_body layout
frame_body-layout f = ground (arith, open_body-layout f)

pub length-layout : (f : Frame) → 2 ≤ length (layout f)
unfolding layout
length-layout f = omega arith
