-- ===== src/Protocol/Frame.antt =====
-- The frame, its constants and its errors.
use mule.Base.{ℕ, Text, Bool, ◌==◌, ◌||◌}

abbrev pub version : ℕ
version = 2

abbrev pub max_frame_len : ℕ
max_frame_len = 4096

-- `type Type byte`: any byte may stand in a frame.
abbrev pub type_open : ℕ
type_open = 1

abbrev pub type_ok : ℕ
type_ok = 2

abbrev pub type_error : ℕ
type_error = 3

abbrev pub type_probe : ℕ
type_probe = 4

abbrev pub error_dial_failed : ℕ
error_dial_failed = 1

abbrev pub error_overloaded : ℕ
error_overloaded = 2

abbrev pub error_unauthorized : ℕ
error_unauthorized = 3

abbrev pub error_internal_error : ℕ
error_internal_error = 4

abbrev pub direction_forward : ℕ
direction_forward = 1

abbrev pub direction_reverse : ℕ
direction_reverse = 2

pub record Frame : Type 0 where
  pub type : ℕ
  pub code : ℕ
  pub direction : ℕ
  pub service : Text
  pub peer_id : Text
  pub listener : Text
  pub source_addr : Text
  pub connection_id : Text

-- What `io` and a transport report; `other` is an error of the transport, by number.
pub data IoError : Type 0 where
  eof unexpected_eof short_write invalid_write_count : IoError
  other : ℕ → IoError

-- `unknown_type` wraps ErrBadFrame in the source.
pub data Error : Type 0 where
  frame_too_large bad_version bad_frame : Error
  unknown_type : ℕ → Error
  io : IoError → Error

abbrev pub valid_direction : ℕ → Bool
valid_direction d = d == direction_forward || d == direction_reverse

abbrev pub valid_error_code : ℕ → Bool
valid_error_code c =
    c == error_dial_failed
    || (c == error_overloaded || (c == error_unauthorized || c == error_internal_error))

-- `case TypeOpen, TypeProbe`.
abbrev pub names_service : ℕ → Bool
names_service t = t == type_open || t == type_probe
