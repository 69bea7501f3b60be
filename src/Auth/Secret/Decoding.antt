-- ===== src/Auth/Secret/Decoding.antt =====
-- The text of a secret: `DecodeSecret`.
use mule.Base.{
  ◌≡◌, ◌≢◌, ◌%◌, ◌≤◌, inl, inr, refl, Text, true, false, [], ◌∷◌, ◌++◌, Option, none, some, ok, All,
  IsByte, length, Bool-cases, arith,
}
use mule.Config.Strings.{is_empty}
use mule.Auth.Encoding.{base64_decode, base64_encode, hex_decode, hex_encode, trim_space}
use mule.Auth.Encoding.RoundTrip.{
  hex_decode-hex_encode, hex_decode-base64_encode, base64_decode-base64_encode, encode-IsPlain,
  hex_encode-IsPlain,
}
use mule.Auth.Encoding.Trimming.{trim_space_line}
use mule.Auth.Secret.{validate_secret, first_encoding, decode_secret}

validated : (secret out : Text) → validate_secret secret ≡ ok out → 32 ≤ length out
validated secret out h = ground arith

encoded : (a b c : Option Text) (out : Text) → first_encoding a b c ≡ ok out → 32 ≤ length out
encoded (some s) b c out h = validated s out h
encoded none (some s) c out h = validated s out h
encoded none none (some s) out h = validated s out h
encoded none none none out h = absurd (cc)

pub decoded : (s out : Text) → decode_secret s ≡ ok out → 32 ≤ length out
unfolding decode_secret
decoded s out h = elim (Bool-cases (is_empty (trim_space s))) [
  | inl e ↦ absurd (ground arith)
  | inr e ↦
      encoded (hex_decode (trim_space s)) (base64_decode true (trim_space s))
        (base64_decode false (trim_space s)) out (rw e at h)
]

encode_not_empty : (s : Text) → 1 ≤ length s → is_empty (base64_encode s) ≡ false
encode_not_empty [] h = absurd (omega arith)
encode_not_empty (x ∷ []) h = refl
encode_not_empty (x ∷ y ∷ []) h = refl
encode_not_empty (x ∷ y ∷ z ∷ s) h = refl

hex_not_empty : (s : Text) → 1 ≤ length s → is_empty (hex_encode s) ≡ false
hex_not_empty [] h = absurd (omega arith)
hex_not_empty (x ∷ s) h = refl

long_enough : (s : Text) → 32 ≤ length s → validate_secret s ≡ ok s
long_enough s h = ground arith

pub decode_secret_hex :
    (s : Text) → All IsByte s → 32 ≤ length s → decode_secret (hex_encode s ++ 10 ∷ []) ≡ ok s
unfolding decode_secret
decode_secret_hex s bytes h =
    rw
      (
        trim_space_line (hex_encode s) (hex_encode-IsPlain s bytes),
        hex_not_empty s (omega arith),
        hex_decode-hex_encode s bytes,
      )
      (long_enough s h)

pub decode_secret_base64 :
    (s : Text)
    → All IsByte s
    → 32 ≤ length s
    → length s % 3 ≢ 0
    → decode_secret (base64_encode s ++ 10 ∷ []) ≡ ok s
unfolding decode_secret
decode_secret_base64 s bytes h odd =
    rw
      (
        trim_space_line (base64_encode s) (encode-IsPlain s bytes),
        encode_not_empty s (omega arith),
        hex_decode-base64_encode s odd,
        base64_decode-base64_encode s bytes,
      )
      (long_enough s h)
