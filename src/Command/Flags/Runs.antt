-- ===== src/Command/Flags/Runs.antt =====
-- Concrete arguments, and the theorem at them.
use mule.Base.{
  ◌≡◌, refl, Text, [], ◌∷◌, List, none, some, if◌then◌else◌, codes, text_eq, lookup, has_text, ok,
  err, pos,
}
use mule.Config.Strings.{cut, contains}
use mule.Command.Flags.{
  Kind, text_flag, bool_flag, int_flag, duration_flag, help, not_defined, no_argument,
  invalid_value, positional_arguments, mixed_with_config, Values, Assignments, parse_flags, parse,
  reject_flags_with_config,
}
use mule.Command.Flags.Rendered.{followed_by, argument, parse_flags-rendered}

abbrev values : Values
values = record {
  parse_duration = λ s. if text_eq s (codes "5s") then some (pos 5000000000) else none;
  parse_int = λ s. if text_eq s (codes "7") then some (pos 7) else none;
}

abbrev kinds : List (Text × Kind)
kinds =
    (codes "forward", text_flag)
    ∷ (codes "keepalive", duration_flag)
    ∷ (codes "max-streams", int_flag)
    ∷ (codes "skip-secrets", bool_flag)
    ∷ []

abbrev set : Assignments
set =
    (codes "forward", codes "a=b:1")
    ∷ (codes "keepalive", codes "5s")
    ∷ (codes "skip-secrets", codes "true")
    ∷ (codes "forward", codes "")
    ∷ []

abbrev left : List Text
left = codes "x" ∷ codes "--keepalive=5s" ∷ []

parse_flags-rendered_example :
    parse_flags values kinds (followed_by set left) ≡ err (positional_arguments left)
unfolding contains lookup has_text
parse_flags-rendered_example =
    parse_flags-rendered values kinds set left (some (positional_arguments left))
      (
        (refl, refl, (text_flag, refl, refl)),
        (
          (refl, refl, (duration_flag, refl, refl)),
          ((refl, refl, (bool_flag, refl, refl)), ((refl, refl, (text_flag, refl, refl)), tt)),
        ),
      )
      (argument b'x' [] (codes "--keepalive=5s" ∷ []) refl)

separate :
    parse_flags values kinds (
      codes "--keepalive"
      ∷ codes "5s"
      ∷ codes "-skip-secrets"
      ∷ codes "-forward"
      ∷ codes "x=y"
      ∷ [])
    ≡ ok (
        (codes "keepalive", codes "5s")
        ∷ (codes "skip-secrets", codes "true")
        ∷ (codes "forward", codes "x=y")
        ∷ [])
unfolding parse_flags parse lookup cut has_text
separate = refl

asks_help : parse_flags values kinds (codes "--help" ∷ []) ≡ err help
unfolding parse_flags parse lookup cut has_text
asks_help = refl

unknown : parse_flags values kinds (codes "--colour=red" ∷ []) ≡ err (not_defined (codes "colour"))
unfolding parse_flags parse lookup cut has_text
unknown = refl

without_argument :
    parse_flags values kinds (codes "--keepalive" ∷ []) ≡ err (no_argument (codes "keepalive"))
unfolding parse_flags parse lookup cut has_text
without_argument = refl

no_duration :
    parse_flags values kinds (codes "--keepalive" ∷ codes "soon" ∷ [])
    ≡ err (invalid_value (codes "keepalive") (codes "soon"))
unfolding parse_flags parse lookup cut has_text
no_duration = refl

left_over :
    parse_flags values kinds (codes "--skip-secrets" ∷ codes "--" ∷ codes "x" ∷ [])
    ≡ err (positional_arguments (codes "x" ∷ []))
unfolding parse_flags parse lookup cut has_text
left_over = refl

mixed :
    reject_flags_with_config set
      (codes "server.yaml")
      (codes "agent" ∷ codes "forward" ∷ codes "keepalive" ∷ [])
    ≡ err (mixed_with_config (codes "forward" ∷ codes "keepalive" ∷ []))
unfolding reject_flags_with_config
mixed = refl
