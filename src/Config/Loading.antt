-- ===== src/Config/Loading.antt =====
-- internal/config/config.go: `DecodeYAMLStrict`, and what both `LoadConfig` functions share. The
-- YAML decoder of gopkg.in/yaml.v3, with KnownFields, is a parameter, and so is
-- `time.ParseDuration`, which computes with floating-point numbers.
use mule.Base.{Text, Option, none, some, if◌then◌else◌, ℤ, pos, Result, ok, err}
use mule.Config.Strings.{is_empty}

pub data LoadError : Type 0 where
  unreadable several_documents : LoadError
  -- What the decoder says.
  bad_yaml : Text → LoadError
  bad_duration : Text → LoadError

-- What a `Decode` after the first gives.
pub data Next : Type 0 where
  at_end another : Next
  failed : Text → Next

-- A decoder into a type: the first `Decode` on some data, and the second.
pub record Decoder {ℓ} (F : Type ℓ) : Type ℓ where
  pub first : Text → Result Text F
  pub second_of : Text → Next

abbrev pub only_document {ℓ} : {F : Type ℓ} → F → Next → Result LoadError F
only_document out at_end = ok out
only_document out another = err several_documents
only_document out (failed e) = err (bad_yaml e)

abbrev pub with_decoded {ℓ} : {F : Type ℓ} → Result Text F → Next → Result LoadError F
with_decoded (err e) next = err (bad_yaml e)
with_decoded (ok out) next = only_document out next

unfoldable pub decode_yaml_strict {ℓ} : {F : Type ℓ} → Decoder F → Text → Result LoadError F
decode_yaml_strict decoder text = with_decoded (decoder.first text) (decoder.second_of text)

-- What a configuration is loaded from: `os.ReadFile`, the decoder, and `time.ParseDuration`.
pub record Sources {ℓ} (F : Type ℓ) : Type ℓ where
  pub read_file : Text → Option Text
  pub decoder : Decoder F
  pub parse_duration : Text → Option ℤ

abbrev pub readable : Option Text → Result LoadError Text
readable none = err unreadable
readable (some text) = ok text

abbrev pub parsed_duration : Text → Option ℤ → Result LoadError ℤ
parsed_duration s none = err (bad_duration s)
parsed_duration s (some d) = ok d

-- A duration that is not given stays zero.
abbrev pub optional_duration : (Text → Option ℤ) → Text → Result LoadError ℤ
optional_duration parse_duration s =
    if is_empty s then ok (pos 0) else parsed_duration s (parse_duration s)
