-- ===== src/Auth/Encoding/Trimming.antt =====
-- A text of printed characters under `strings.TrimSpace`.
use mule.Base.{ℕ, ◌≡◌, refl, Text, [], ◌∷◌, ◌++◌, All, arith}
use mule.Auth.Encoding.{space_length, trim_left, trim_right, trim_space}
use mule.Auth.Encoding.RoundTrip.{IsPlain}

space_length_plain : (c : ℕ) (s : Text) → IsPlain c → space_length (c ∷ s) ≡ 0
space_length_plain c [] h = ground arith
space_length_plain c (b ∷ []) h = ground arith
space_length_plain c (b ∷ d ∷ s) h = ground arith

trim_left_plain : (c : ℕ) (s : Text) → IsPlain c → trim_left 0 (c ∷ s) ≡ c ∷ s
unfolding trim_left
trim_left_plain c s h = rw (space_length_plain c s h)

trim_right_plain : (s : Text) → All IsPlain s → trim_right (s ++ 10 ∷ []) ≡ s
unfolding trim_right
trim_right_plain [] h = refl
trim_right_plain (c ∷ s) h = rw (trim_left_plain c (s ++ 10 ∷ []) h.0, trim_right_plain s h.1)

-- The line end that an editor or `echo` leaves at the end of a file is dropped.
pub trim_space_line : (s : Text) → All IsPlain s → trim_space (s ++ 10 ∷ []) ≡ s
unfolding trim_space
trim_space_line [] h = refl
trim_space_line (c ∷ s) h = rw (trim_left_plain c (s ++ 10 ∷ []) h.0) (trim_right_plain (c ∷ s) h)

trim_right_same : (s : Text) → All IsPlain s → trim_right s ≡ s
unfolding trim_right
trim_right_same [] h = refl
trim_right_same (c ∷ s) h = rw (trim_left_plain c s h.0, trim_right_same s h.1)

pub trim_space_plain : (s : Text) → All IsPlain s → trim_space s ≡ s
unfolding trim_space
trim_space_plain [] h = refl
trim_space_plain (c ∷ s) h = rw (trim_left_plain c s h.0) (trim_right_same (c ∷ s) h)
