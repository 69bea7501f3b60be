-- ===== src/Protocol/Runs.antt =====
-- Concrete frames and streams, and the theorems at them.
use mule.Base.{◌≡◌, refl, Text, [], ◌∷◌, ◌++◌, none, length, codes, ok, err, arith, pos, drop, min}
use mule.Protocol.Frame.{
  Frame, io, bad_frame, bad_version, eof, unexpected_eof, type_open, direction_forward,
}
use mule.Protocol.Stream.{Reader, read_full, Writer, done, write_full}
use mule.Protocol.Encode.{append_string, append_strings, open_body, frame_body, write_frame}
use mule.Protocol.Decode.{read_string, parse_open, parse_payload, parse_body, read_frame}
use mule.Protocol.Layout.{layout}
use mule.Protocol.RoundTrip.{carried}
use mule.Protocol.Delivery.{wire}
use mule.Protocol.Receive.{
  read_frame-wire, read_frame_accepts, read_frame_cut, read_frame-write_frame,
}

abbrev web_open : Frame
web_open = record {
  type = type_open;
  code = 7;
  direction = direction_forward;
  service = codes "web";
  peer_id = codes "a";
  listener = [];
  source_addr = [];
  connection_id = codes "c1";
}

-- Takes three bytes at most in each call.
abbrev slow_writer : Writer
slow_writer = record {
  reply = λ _ p. record { count = pos (min 3 (length p)); failure = none };
  calls = 0;
  sent = [];
}

abbrev stream : Text → Reader
stream s = record { incoming = s; failure = eof }

abbrev web_wire : Text
web_wire =
    0 ∷ 19 ∷ 2 ∷ 1 ∷ 1 ∷ 0 ∷ 3 ∷ b'w' ∷ b'e' ∷ b'b' ∷ 0 ∷ 1 ∷ b'a' ∷ 0 ∷ 0 ∷ 0 ∷ 0 ∷ 0 ∷ 2 ∷ b'c'
    ∷ b'1' ∷ []

write_web : (write_frame slow_writer web_open).0.sent ≡ web_wire
unfolding write_frame frame_body open_body append_strings append_string write_full
write_web = refl

write_web_ends : (write_frame slow_writer web_open).1 ≡ done
unfolding write_frame frame_body open_body append_strings append_string write_full
write_web_ends = refl

read_web : read_frame (stream (web_wire ++ 9 ∷ [])) ≡ ok (carried web_open, stream (9 ∷ []))
unfolding read_frame read_full parse_body parse_payload parse_open read_string
read_web = refl

read_old_version : read_frame (stream (0 ∷ 2 ∷ 1 ∷ 2 ∷ [])) ≡ err bad_version
unfolding read_frame read_full parse_body
read_old_version = refl

read_empty_body : read_frame (stream (0 ∷ 0 ∷ [])) ≡ err bad_frame
unfolding read_frame read_full
read_empty_body = refl

read_frame-wire_example :
    read_frame (stream (wire web_open ++ 9 ∷ [])) ≡ ok (carried web_open, stream (9 ∷ []))
read_frame-wire_example =
    read_frame-wire web_open (stream (wire web_open ++ 9 ∷ [])) (9 ∷ [])
      (unfold layout in omega arith) refl

read_frame_accepts_example : web_wire ++ 9 ∷ [] ≡ wire (carried web_open) ++ 9 ∷ []
read_frame_accepts_example =
    (read_frame_accepts (stream (web_wire ++ 9 ∷ [])) (stream (9 ∷ [])) (carried web_open)
      (omega arith) read_web).0

read_frame_cut_example : read_frame (stream (0 ∷ 19 ∷ 2 ∷ [])) ≡ err (io unexpected_eof)
read_frame_cut_example =
    read_frame_cut web_open (stream (0 ∷ 19 ∷ 2 ∷ [])) 1 (drop 4 web_wire)
      (unfold layout in omega arith) (unfold layout in refl)

read_frame-write_frame_example :
    read_frame (stream ((write_frame slow_writer web_open).0.sent ++ 9 ∷ []))
    ≡ ok (carried web_open, stream (9 ∷ []))
read_frame-write_frame_example =
    read_frame-write_frame slow_writer web_open eof (9 ∷ []) refl refl write_web_ends
