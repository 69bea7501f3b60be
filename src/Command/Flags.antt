-- ===== src/Command/Flags.antt =====
-- cmd/mule/main.go: `parseFlags` and `rejectFlagsWithConfig`, with the part of the package flag that
-- they use. What `time.ParseDuration` and `strconv.ParseInt` read is a parameter.
pub mod Rendered
mod Runs
use mule.Base.{
  ℕ, Text, Bool, true, false, not, ◌&&◌, ◌||◌, [], ◌∷◌, List, Option, none, some, if◌then◌else◌,
  codes, text_eq, has_text, lookup, ◌==◌, ℤ, pos, Result, ok, err, guard, ◌>>=◌, ◌>>◌,
}
use mule.Config.Strings.{cut, is_empty}
use mule.Config.Normalize.{is_nil, is_none}

pub data Kind : Type 0 where
  text_flag bool_flag int_flag duration_flag : Kind

-- One constructor for each message, with what it quotes; `help` is `flag.ErrHelp`.
pub data FlagError : Type 0 where
  help : FlagError
  bad_syntax not_defined no_argument : Text → FlagError
  invalid_value : (name value : Text) → FlagError
  positional_arguments : List Text → FlagError
  mixed_with_config : List Text → FlagError

pub record Values : Type 0 where
  pub parse_duration : Text → Option ℤ
  pub parse_int : Text → Option ℤ

-- `strconv.ParseBool`.
abbrev pub bool_texts : List Text
bool_texts =
    codes "1"
    ∷ codes "t"
    ∷ codes "T"
    ∷ codes "TRUE"
    ∷ codes "true"
    ∷ codes "True"
    ∷ codes "0"
    ∷ codes "f"
    ∷ codes "F"
    ∷ codes "FALSE"
    ∷ codes "false"
    ∷ codes "False"
    ∷ []

-- Whether `Value.Set` takes the text.
abbrev pub is_value : Values → Kind → Text → Bool
is_value values text_flag s = true
is_value values bool_flag s = has_text s bool_texts
is_value values int_flag s = not (is_none (values.parse_int s))
is_value values duration_flag s = not (is_none (values.parse_duration s))

-- What an argument looks like: it ends the flags, as a positional one or as `--`, or has the name of
-- one, with what follows it.
pub data Shape : Type 0 where
  positional terminator malformed : Shape
  named : Text → Shape

abbrev pub shape_of_name : Text → Shape
shape_of_name [] = malformed
shape_of_name (c ∷ name) = if c == b'-' || c == b'=' then malformed else named (c ∷ name)

abbrev pub shape_of : Text → Shape
shape_of [] = positional
shape_of (c ∷ []) = positional
shape_of (c ∷ d ∷ name) =
    if not (c == b'-')
    then positional
    else if not (d == b'-')
    then shape_of_name (d ∷ name)
    else if is_empty name
    then terminator
    else shape_of_name name

-- The flags that are set, in the order of the arguments.
abbrev pub Assignments : Type 0
Assignments = List (Text × Text)

abbrev pub undefined : Text → FlagError
undefined name =
    if text_eq name (codes "help") || text_eq name (codes "h") then help else not_defined name

-- What `Parse` gives: the flags that are set, and `Args`.
abbrev pub Parsed : Type 0
Parsed = Result FlagError (Assignments × List Text)

abbrev pub also_set : Text → Text → Parsed → Parsed
also_set name value (err e) = err e
also_set name value (ok (set, args)) = ok ((name, value) ∷ set, args)

abbrev pub assign : Values → Kind → Text → Text → Parsed → Parsed
assign values kind name value rest =
    if is_value values kind value then also_set name value rest else err (invalid_value name value)

-- `-name=value`.
abbrev pub with_value : Values → Text → Text → Option Kind → Parsed → Parsed
with_value values name value none rest = err (undefined name)
with_value values name value (some kind) rest = assign values kind name value rest

-- `-name`, which takes the next argument unless the flag is Boolean.
abbrev pub without_value : Values → Text → Option Kind → Parsed → Option (Text × Parsed) → Parsed
without_value values name none rest after = err (undefined name)
without_value values name (some bool_flag) rest after = also_set name (codes "true") rest
without_value values name (some kind) rest none = err (no_argument name)
without_value values name (some kind) rest (some (value, after)) =
    assign values kind name value after

abbrev pub parse_named :
    Values
    → List (Text × Kind)
    → Text
    → Option (Text × Text)
    → Parsed
    → Option (Text × Parsed)
    → Parsed
parse_named values kinds name (some (front, value)) rest after =
    with_value values front value (lookup front kinds) rest
parse_named values kinds name none rest after =
    without_value values name (lookup name kinds) rest after

-- An argument, with the arguments after it and what they are parsed into.
abbrev pub parse_argument :
    Values
    → List (Text × Kind)
    → Text
    → Shape
    → List Text
    → Parsed
    → Option (Text × Parsed)
    → Parsed
parse_argument values kinds s positional args rest after = ok ([], s ∷ args)
parse_argument values kinds s terminator args rest after = ok ([], args)
parse_argument values kinds s malformed args rest after = err (bad_syntax s)
parse_argument values kinds s (named name) args rest after =
    parse_named values kinds name (cut b'=' name) rest after

-- `Parse` of the package flag.
unfoldable pub parse : Values → List (Text × Kind) → List Text → Parsed
unfolding lookup cut has_text
parse values kinds [] = ok ([], [])
parse values kinds (s ∷ []) = parse_argument values kinds s (shape_of s) [] (ok ([], [])) none
parse values kinds (s ∷ next ∷ args) =
    let rest = parse values kinds (next ∷ args) in
    let after = parse values kinds args in
    parse_argument values kinds s (shape_of s) (next ∷ args) rest (some (next, after))

-- `if fs.NArg() != 0`; an error of `Parse` is passed on, `flag.ErrHelp` too.
abbrev pub without_arguments : Parsed → Result FlagError Assignments
without_arguments (err e) = err e
without_arguments (ok (set, [])) = ok set
without_arguments (ok (set, arg ∷ args)) = err (positional_arguments (arg ∷ args))

unfoldable pub parse_flags : Values → List (Text × Kind) → List Text → Result FlagError Assignments
unfolding parse
parse_flags values kinds args = without_arguments (parse values kinds args)

-- What a flag's variable holds at the end: the last value, or the default.
abbrev pub value_of : Text → Text → Assignments → Text
value_of name default [] = default
value_of name default ((n, v) ∷ rest) = value_of name (if text_eq n name then v else default) rest

-- All values of a flag that may be repeated.
abbrev pub values_of : Text → Assignments → List Text
values_of name [] = []
values_of name ((n, v) ∷ rest) =
    if text_eq n name then v ∷ values_of name rest else values_of name rest

abbrev pub is_set : Text → Assignments → Bool
is_set name [] = false
is_set name ((n, v) ∷ rest) = text_eq n name || is_set name rest

abbrev pub mixed_names : List Text → Assignments → List Text
mixed_names [] set = []
mixed_names (name ∷ names) set =
    if is_set name set then name ∷ mixed_names names set else mixed_names names set

abbrev pub none_mixed : List Text → Result FlagError (Unit {0})
none_mixed [] = ok tt
none_mixed (name ∷ names) = err (mixed_with_config (name ∷ names))

-- With the names in the order in which `Visit` meets the flags.
unfoldable pub reject_flags_with_config :
    Assignments → Text → List Text → Result FlagError (Unit {0})
reject_flags_with_config set config_path names =
    if is_empty config_path then ok tt else none_mixed (mixed_names names set)

abbrev pub or_zero : ℤ → Option ℤ → ℤ
or_zero default none = default
or_zero default (some v) = v

abbrev pub number_of : (Text → Option ℤ) → Text → ℤ → Assignments → ℤ
number_of parse name default [] = default
number_of parse name default ((n, v) ∷ rest) =
    number_of parse name (if text_eq n name then or_zero default (parse v) else default) rest
