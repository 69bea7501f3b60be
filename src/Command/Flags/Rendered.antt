-- ===== src/Command/Flags/Rendered.antt =====
-- Flags written as `--name=value`, what may follow them, and what `parseFlags` makes of both.
use mule.Base.{
  ℕ, Bool-cases, inl, inr, ◌≡◌, refl, Text, true, false, ◌||◌, [], ◌∷◌, ◌++◌, List, Option, none,
  some, All, codes, lookup, ◌==◌, Result, ok, err, ap, ok-injective,
}
use mule.Config.Strings.{contains, cut}
use mule.Config.Strings.Cutting.{cut_first}
use mule.Command.Flags.{
  Kind, Values, FlagError, help, positional_arguments, Assignments, Parsed, is_value, named,
  positional, undefined, also_set, without_arguments, shape_of, shape_of_name, parse_argument,
  parse, parse_flags,
}

abbrev pub rendered : Text × Text → Text
rendered (name, value) = b'-' ∷ b'-' ∷ (name ++ b'=' ∷ value)

abbrev pub followed_by : Assignments → List Text → List Text
followed_by [] rest = rest
followed_by (a ∷ set) rest = rendered a ∷ followed_by set rest

-- A flag of the set, with a value that it takes. A name is not empty, has no `=` and starts with no
-- `-`.
abbrev pub IsAccepted : Values → List (Text × Kind) → Text × Text → Type 0
IsAccepted values kinds (name, value) =
    (shape_of_name name ≡ named name)
    × (contains b'=' name ≡ false)
    × ((kind : Kind) × (lookup name kinds ≡ some kind) × (is_value values kind value ≡ true))

-- What may follow the flags: nothing, `--`, arguments that are no flags, or a question for help
-- where no flag has that name; with the error for it, if it is one.
pub data Follows (kinds : List (Text × Kind)) : List Text → Option FlagError → Type 0 where
  nothing : Follows kinds [] none
  dashes : Follows kinds (codes "--" ∷ []) none
  after_dashes :
      (arg : Text) (args : List Text)
      → Follows kinds (codes "--" ∷ arg ∷ args) (some (positional_arguments (arg ∷ args)))
  empty_argument :
      (args : List Text) → Follows kinds ([] ∷ args) (some (positional_arguments ([] ∷ args)))
  one_dash :
      (args : List Text)
      → Follows kinds (codes "-" ∷ args) (some (positional_arguments (codes "-" ∷ args)))
  argument :
      (c : ℕ) (arg : Text) (args : List Text)
      → (c == b'-') ≡ false
      → Follows kinds ((c ∷ arg) ∷ args) (some (positional_arguments ((c ∷ arg) ∷ args)))
  question :
      (args : List Text)
      → lookup (codes "help") kinds ≡ none
      → Follows kinds (codes "--help" ∷ args) (some help)
  short_question :
      (args : List Text)
      → lookup (codes "h") kinds ≡ none
      → Follows kinds (codes "-h" ∷ args) (some help)

abbrev pub refused_or : Assignments → Option FlagError → Result FlagError Assignments
refused_or set none = ok set
refused_or set (some e) = err e

rendered-shape :
    (name value : Text)
    → shape_of_name name ≡ named name
    → shape_of (rendered (name, value)) ≡ named (name ++ b'=' ∷ value)
rendered-shape [] value h = absurd (cc)
rendered-shape (c ∷ name) value h = elim (Bool-cases (c == b'-' || c == b'=')) [
  | inl e ↦ absurd (let bad = rw e at h in cc)
  | inr e ↦ rw e
]

parse_rendered :
    (values : Values) (kinds : List (Text × Kind)) (a : Text × Text) (args : List Text)
    (rest : Parsed) (after : Option (Text × Parsed))
    → IsAccepted values kinds a
    → parse_argument values kinds (rendered a) (shape_of (rendered a)) args rest after
      ≡ also_set a.0 a.1 rest
parse_rendered values kinds (name, value) args rest after (shape, plain, (kind, known, takes)) =
    rw (rendered-shape name value shape, cut_first b'=' name value plain, known, takes)

parse-rendered :
    (values : Values) (kinds : List (Text × Kind)) (a : Text × Text) (args : List Text)
    → IsAccepted values kinds a
    → parse values kinds (rendered a ∷ args) ≡ also_set a.0 a.1 (parse values kinds args)
unfolding parse
parse-rendered values kinds a [] h = parse_rendered values kinds a [] _ _ h
parse-rendered values kinds a (next ∷ args) h = parse_rendered values kinds a (next ∷ args) _ _ h

-- One flag more does not change with which error the arguments are refused.
without_arguments-also_set :
    (name value : Text) (p : Parsed) (set : Assignments) (e : Option FlagError)
    → without_arguments p ≡ refused_or set e
    → without_arguments (also_set name value p) ≡ refused_or ((name, value) ∷ set) e
without_arguments-also_set name value (err x) set none h = absurd (cc)
without_arguments-also_set name value (err x) set (some e) h = h
without_arguments-also_set name value (ok (s, [])) set none h =
    ap (λ (t : Assignments). ok ((name, value) ∷ t)) (ok-injective h)
without_arguments-also_set name value (ok (s, [])) set (some e) h = absurd (cc)
without_arguments-also_set name value (ok (s, arg ∷ args)) set none h = absurd (cc)
without_arguments-also_set name value (ok (s, arg ∷ args)) set (some e) h = h

parse-argument :
    (values : Values) (kinds : List (Text × Kind)) (s : Text) (args : List Text)
    → shape_of s ≡ positional
    → parse values kinds (s ∷ args) ≡ ok ([], s ∷ args)
unfolding parse
parse-argument values kinds s [] h = rw h refl
parse-argument values kinds s (next ∷ args) h = rw h refl

shape_of-argument : (c : ℕ) (arg : Text) → (c == b'-') ≡ false → shape_of (c ∷ arg) ≡ positional
shape_of-argument c [] h = refl
shape_of-argument c (d ∷ arg) h = rw h refl

parse-undefined :
    (values : Values) (kinds : List (Text × Kind)) (s name : Text) (args : List Text)
    → shape_of s ≡ named name
    → cut b'=' name ≡ none
    → lookup name kinds ≡ none
    → parse values kinds (s ∷ args) ≡ err (undefined name)
unfolding parse
parse-undefined values kinds s name [] shape plain unknown = rw (shape, plain, unknown) refl
parse-undefined values kinds s name (next ∷ args) shape plain unknown =
    rw (shape, plain, unknown) refl

parse_flags-Follows :
    (values : Values) (kinds : List (Text × Kind)) (args : List Text) (e : Option FlagError)
    → Follows kinds args e
    → parse_flags values kinds args ≡ refused_or [] e
unfolding parse_flags parse cut
parse_flags-Follows values kinds args e nothing = refl
parse_flags-Follows values kinds args e dashes = refl
parse_flags-Follows values kinds args e (after_dashes arg args') = refl
parse_flags-Follows values kinds args e (empty_argument rest) =
    rw (parse-argument values kinds [] rest refl) refl
parse_flags-Follows values kinds args e (one_dash rest) =
    rw (parse-argument values kinds (codes "-") rest refl) refl
parse_flags-Follows values kinds args e (argument c arg rest h) =
    rw (parse-argument values kinds (c ∷ arg) rest (shape_of-argument c arg h)) refl
parse_flags-Follows values kinds args e (question rest h) =
    rw (parse-undefined values kinds (codes "--help") (codes "help") rest refl refl h) refl
parse_flags-Follows values kinds args e (short_question rest h) =
    rw (parse-undefined values kinds (codes "-h") (codes "h") rest refl refl h) refl

-- parseFlags gives the same names and values in the same order for arguments written as
-- --name=value, where the names are those of flags and the values are ones that they take, if
-- nothing or a last -- follows them; it refuses them with ErrHelp if a question for help comes
-- next and no flag has that name, and for their positional arguments, which it quotes, if any come
-- next, with or without a --.
pub parse_flags-rendered :
    (values : Values) (kinds : List (Text × Kind)) (set : Assignments) (args : List Text)
    (e : Option FlagError)
    → All (IsAccepted values kinds) set
    → Follows kinds args e
    → parse_flags values kinds (followed_by set args) ≡ refused_or set e
unfolding parse_flags
parse_flags-rendered values kinds [] args e h follows =
    parse_flags-Follows values kinds args e follows
parse_flags-rendered values kinds (a ∷ set) args e h follows =
    rw (parse-rendered values kinds a (followed_by set args) h.0) (
      without_arguments-also_set a.0 a.1 (parse values kinds (followed_by set args)) set e
        (parse_flags-rendered values kinds set args e h.1 follows))
