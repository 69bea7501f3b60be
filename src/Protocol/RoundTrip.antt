-- ===== src/Protocol/RoundTrip.antt =====
-- The reader inverts the wire format, and accepts nothing else.
use mule.Base.{
  ◌≤◌, ◌<◌, ◌≡◌, Text, List, [], ◌∷◌, ◌++◌, ◌&&◌, ◌||◌, Bool, length, length-append, take-append,
  drop-append, ◌==◌, if◌then◌else◌, ok, err, arith,
}
use mule.Protocol.Frame.{
  Frame, bad_frame, unknown_type, max_frame_len, type_ok, type_error, valid_direction,
  valid_error_code, names_service,
}
use mule.Protocol.Decode.{
  read_string, bare_frame, parse_open, parse_error, parse_payload, parse_body,
}
use mule.Protocol.Layout.{string_bytes, strings_bytes, names, layout}

-- What a frame's type lets it carry over the wire.
abbrev pub carried : Frame → Frame
carried f =
    if names_service f.type
    then record f { code = 0 }
    else if f.type == type_error
    then record (bare_frame f.type) { code = f.code }
    else bare_frame f.type

-- The frames that a receiver understands.
abbrev pub well_formed : Frame → Bool
well_formed f =
    if names_service f.type
    then valid_direction f.direction
    else f.type == type_ok || (f.type == type_error && valid_error_code f.code)

pub read_string-string_bytes :
    (s rest : Text) → length s < 65536 → read_string (string_bytes s ++ rest) ≡ ok (s, rest)
unfolding read_string
read_string-string_bytes s rest h =
    ground (arith, take-append s rest, drop-append s rest, length-append s rest)

-- Reading a list of strings off their bytes, one after the other.
read_first :
    (s : Text) (ss : List Text)
    → length (strings_bytes (s ∷ ss)) ≤ max_frame_len
    → (read_string (strings_bytes (s ∷ ss)) ≡ ok (s, strings_bytes ss))
      × (length (strings_bytes ss) ≤ max_frame_len)
read_first s ss h =
    ground
      (arith, length-append s (strings_bytes ss), read_string-string_bytes s (strings_bytes ss))

parse_open-layout :
    (f : Frame)
    → length (strings_bytes (names f)) ≤ max_frame_len
    → parse_open f.type (f.direction ∷ strings_bytes (names f))
      ≡ (if valid_direction f.direction then ok (record f { code = 0 }) else err bad_frame)
unfolding parse_open
parse_open-layout f h =
    let (e1, h1) =
      read_first f.service (f.peer_id ∷ f.listener ∷ f.source_addr ∷ f.connection_id ∷ []) h in
    let (e2, h2) = read_first f.peer_id (f.listener ∷ f.source_addr ∷ f.connection_id ∷ []) h1 in
    let (e3, h3) = read_first f.listener (f.source_addr ∷ f.connection_id ∷ []) h2 in
    let (e4, h4) = read_first f.source_addr (f.connection_id ∷ []) h3 in
    let (e5, h5) = read_first f.connection_id [] h4 in rw (e1, e2, e3, e4, e5) (ground arith)

-- `parse_body` on the wire format: what the frame carries, and the error of a frame that no
-- receiver understands.
pub parse_body-layout :
    (f : Frame)
    → length (layout f) ≤ max_frame_len
    → parse_body (layout f) ≡ (
        if well_formed f
        then ok (carried f)
        else if names_service f.type || f.type == type_error
        then err bad_frame
        else err (unknown_type f.type))
unfolding layout parse_body parse_payload parse_error
parse_body-layout f h = ground (arith, parse_open-layout f)
