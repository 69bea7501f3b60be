-- ===== src/Logging.antt =====
-- internal/logging/logging.go: which lines are written, and what is in them. The `%v` of a value
-- that is no string and encoding/json are parameters.
mod Runs
use mule.Base.{
  ℕ, Text, [], ◌∷◌, ◌++◌, List, Option, none, some, if◌then◌else◌, codes, text_eq, insert, lookup,
  ltb,
}

pub data Level : Type 0 where
  debug info warn error : Level

-- The order of slog's levels.
abbrev pub level_number : Level → ℕ
level_number debug = 0
level_number info = 4
level_number warn = 8
level_number error = 12

-- `strings.ToLower(level.String())`.
abbrev pub level_name : Level → Text
level_name debug = codes "debug"
level_name info = codes "info"
level_name warn = codes "warn"
level_name error = codes "error"

pub record Logger : Type 0 where
  pub format : Text
  pub level : Level

abbrev pub parse_level : Text → Level
parse_level level =
    if text_eq level (codes "debug")
    then debug
    else if text_eq level (codes "warn")
    then warn
    else if text_eq level (codes "error")
    then error
    else info

abbrev pub new_logger : (format level : Text) → Logger
new_logger format level = record { format = format; level = parse_level level }

-- A field is a string or some other value.
pub data Field {ℓ} (V : Type ℓ) : Type ℓ where
  text : Text → Field V
  other : V → Field V

-- The loop over the pairs: a key that is no string is passed over with its value, and so is a
-- last field without a value.
unfoldable pub pairs {ℓ} : {V : Type ℓ} → List (Field V) → List (Text × Field V)
pairs [] = []
pairs (key ∷ []) = []
pairs (text key ∷ value ∷ fields) = (key, value) ∷ pairs fields
pairs (other key ∷ value ∷ fields) = pairs fields

module _ {ℓ} {V : Type ℓ} (shown shown_as_string : V → Text)
    (encoded : List (Text × Field V) → Text) where
  abbrev pub show : Field V → Text
  show (text s) = s
  show (other v) = shown v

  abbrev pub text_fields : List (Text × Field V) → Text
  text_fields [] = []
  text_fields ((key, value) ∷ rest) =
      codes " " ++ key ++ codes "=" ++ show value ++ text_fields rest

  -- The map of the JSON object: a later pair replaces an earlier one of its key.
  abbrev pub object_of : List (Text × Field V) → List (Text × Field V) → List (Text × Field V)
  object_of m [] = m
  object_of m ((key, value) ∷ rest) = object_of (insert key value m) rest

  -- The `%s` of the map's level, which a field of that key replaces.
  abbrev pub show_level : Option (Field V) → Text
  show_level none = []
  show_level (some (text s)) = s
  show_level (some (other v)) = shown_as_string v

  abbrev pub line_of : Text → Level → Text → List (Text × Field V) → Text
  line_of format level event fields =
      let start = (codes "level", text (level_name level)) ∷ (codes "event", text event) ∷ [] in
      let m = object_of start fields in
      if text_eq format (codes "json")
      then encoded m
      else codes "level="
        ++ show_level (lookup (codes "level") m)
        ++ codes " event="
        ++ event
        ++ text_fields fields
        ++ codes "\n"

  -- What is written for an event.
  unfoldable pub log : Logger → Level → Text → List (Field V) → Text
  unfolding pairs insert lookup
  log logger level event fields =
      if ltb (level_number level) (level_number logger.level)
      then []
      else line_of logger.format level event (pairs fields)
