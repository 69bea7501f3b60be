-- ===== src/Protocol/Decode.antt =====
-- `readString` and `ReadFrame`.
use mule.Base.{
  ℕ, ◌+◌, ◌*◌, Text, [], ◌∷◌, take, drop, length, ltb, leb, ◌==◌, if◌then◌else◌, Result, ok, err,
  ◌>>=◌, ◌>>◌, guard,
}
use mule.Protocol.Frame.{
  Frame, Error, frame_too_large, bad_frame, bad_version, unknown_type, version, max_frame_len,
  type_ok, type_error, valid_direction, valid_error_code, names_service,
}
use mule.Protocol.Stream.{Reader, read_full}

-- `binary.BigEndian.Uint16(b)`; the callers have at least two bytes.
abbrev pub uint16 : Text → ℕ
uint16 (a ∷ b ∷ rest) = a * 256 + b
uint16 _ = 0

unfoldable pub read_string : Text → Result Error (Text × Text)
read_string body =
    let n = uint16 (take 2 body) in
    let rest = drop 2 body in
    if ltb (length body) 2
    then err bad_frame
    else if ltb (length rest) n
    then err bad_frame
    else ok (take n rest, drop n rest)

-- `Frame{Type: t}`.
abbrev pub bare_frame : ℕ → Frame
bare_frame t = record {
  type = t;
  code = 0;
  direction = 0;
  service = [];
  peer_id = [];
  listener = [];
  source_addr = [];
  connection_id = [];
}

-- `case TypeOpen, TypeProbe`, on `body[2:]`.
unfoldable pub parse_open : ℕ → Text → Result Error Frame
parse_open t [] = err bad_frame
parse_open t (d ∷ rest) = do
  guard (valid_direction d) bad_frame
  (service, rest1) ← read_string rest
  (peer_id, rest2) ← read_string rest1
  (listener, rest3) ← read_string rest2
  (source_addr, rest4) ← read_string rest3
  (connection_id, rest5) ← read_string rest4
  guard (length rest5 == 0) bad_frame
  ok (record (bare_frame t) {
    direction = d;
    service = service;
    peer_id = peer_id;
    listener = listener;
    source_addr = source_addr;
    connection_id = connection_id;
  })

-- `case TypeError`, on `body[2:]`.
unfoldable pub parse_error : ℕ → Text → Result Error Frame
parse_error t (c ∷ []) =
    if valid_error_code c then ok (record (bare_frame t) { code = c }) else err bad_frame
parse_error t _ = err bad_frame

unfoldable pub parse_payload : ℕ → Text → Result Error Frame
parse_payload t rest =
    if names_service t
    then parse_open t rest
    else if t == type_ok
    then (if length rest == 0 then ok (bare_frame t) else err bad_frame)
    else if t == type_error
    then parse_error t rest
    else err (unknown_type t)

-- A shorter body does not get here.
unfoldable pub parse_body : Text → Result Error Frame
parse_body (v ∷ t ∷ rest) = if v == version then parse_payload t rest else err bad_version
parse_body _ = err bad_frame

-- On success also the reader behind the frame. After an error the callers give the stream up.
unfoldable pub read_frame : Reader → Result Error (Frame × Reader)
read_frame r = do
  (header, r1) ← read_full 2 r
  let n = uint16 header
  guard (leb n max_frame_len) frame_too_large
  guard (leb 2 n) bad_frame
  (body, r2) ← read_full n r1
  f ← parse_body body
  ok (f, r2)
