-- ===== src/Auth/Encoding/RoundTrip.antt =====
-- What encoding/hex and encoding/base64 encode is decoded again.
use mule.Base.{
  ℕ, ◌+◌, ◌*◌, ◌/◌, ◌%◌, ◌≤◌, ◌<◌, ◌≡◌, ◌≢◌, refl, ap, Text, true, false, [], ◌∷◌, Option, none,
  some, ◌==◌, All, IsByte, length, arith,
}
use mule.Auth.Encoding.{
  hex_value, hex_byte, hex_decode, hex_digit, hex_encode, base64_value, quantum_2, quantum_3,
  quantum_4, base64_quanta, without_line_ends, base64_decode, base64_char, base64_encode,
}

hex_value-hex_digit : (n : ℕ) → n < 16 → hex_value (hex_digit n) ≡ some n
hex_value-hex_digit n h = ground arith

hex_byte-digits :
    (b : ℕ) (s : Text)
    → IsByte b
    → hex_byte (hex_value (hex_digit (b / 16))) (hex_value (hex_digit (b % 16))) (some s)
      ≡ some (b ∷ s)
hex_byte-digits b s h =
    rw (hex_value-hex_digit (b / 16) (omega arith), hex_value-hex_digit (b % 16) (omega arith))
      (ap (λ x. some (x ∷ s)) (omega arith))

pub hex_decode-hex_encode : (s : Text) → All IsByte s → hex_decode (hex_encode s) ≡ some s
unfolding hex_decode
hex_decode-hex_encode [] h = refl
hex_decode-hex_encode (b ∷ s) h = rw (hex_decode-hex_encode s h.1) (hex_byte-digits b s h.0)

-- A character that is printed and no space.
abbrev pub IsPlain : ℕ → Type 0
IsPlain c = 33 ≤ c × c < 127

hex_digit-IsPlain : (n : ℕ) → n < 16 → IsPlain (hex_digit n)
hex_digit-IsPlain n h = ground arith

pub hex_encode-IsPlain : (s : Text) → All IsByte s → All IsPlain (hex_encode s)
hex_encode-IsPlain [] h = tt
hex_encode-IsPlain (b ∷ s) h = (
  hex_digit-IsPlain (b / 16) (omega arith),
  (hex_digit-IsPlain (b % 16) (omega arith), hex_encode-IsPlain s h.1),
)

base64_value-char : (n : ℕ) → n < 64 → base64_value (base64_char n) ≡ some n
base64_value-char n h = ground arith

not_equal : (m n : ℕ) → m ≢ n → (m == n) ≡ false
not_equal m n h = ground arith

char-IsPlain : (n : ℕ) → n < 64 → IsPlain (base64_char n)
char-IsPlain n h = ground arith

char_not_pad : (n : ℕ) → n < 64 → (base64_char n == b'=') ≡ false
char_not_pad n h = ground arith

first_byte : (x m : ℕ) → m < 16 → x / 4 * 4 + (x % 4 * 16 + m) / 16 ≡ x
first_byte x m h = omega arith

second_byte :
    (y l m : ℕ) → m < 4 → IsByte y → (l * 16 + y / 16) % 16 * 16 + (y % 16 * 4 + m) / 4 ≡ y
second_byte y l m h hy = omega arith

third_byte : (z m : ℕ) → IsByte z → (m * 4 + z / 64) % 4 * 64 + z % 64 ≡ z
third_byte z m h = omega arith

quantum_4-chars :
    (x y z : ℕ) (s : Text)
    → IsByte x
    → IsByte y
    → IsByte z
    → quantum_4
        (base64_value (base64_char (x / 4)))
        (base64_value (base64_char (x % 4 * 16 + y / 16)))
        (base64_value (base64_char (y % 16 * 4 + z / 64)))
        (base64_value (base64_char (z % 64)))
        (some s)
      ≡ some (x ∷ y ∷ z ∷ s)
quantum_4-chars x y z s hx hy hz =
    rw
      (
        base64_value-char (x / 4) (omega arith),
        base64_value-char (x % 4 * 16 + y / 16) (omega arith),
        base64_value-char (y % 16 * 4 + z / 64) (omega arith),
        base64_value-char (z % 64) (omega arith),
      )
      (rw (
        first_byte x (y / 16) (omega arith),
        second_byte y (x % 4) (z / 64) (omega arith) (omega arith),
        third_byte z (y % 16) (omega arith),
      ))

quantum_3-chars :
    (x y : ℕ)
    → IsByte x
    → IsByte y
    → quantum_3
        (base64_value (base64_char (x / 4)))
        (base64_value (base64_char (x % 4 * 16 + y / 16)))
        (base64_value (base64_char (y % 16 * 4)))
      ≡ some (x ∷ y ∷ [])
quantum_3-chars x y hx hy =
    rw
      (
        base64_value-char (x / 4) (omega arith),
        base64_value-char (x % 4 * 16 + y / 16) (omega arith),
        base64_value-char (y % 16 * 4) (omega arith),
      )
      (grind arith)

quantum_2-chars :
    (x : ℕ)
    → IsByte x
    → quantum_2 (base64_value (base64_char (x / 4))) (base64_value (base64_char (x % 4 * 16)))
      ≡ some (x ∷ [])
quantum_2-chars x hx =
    rw (base64_value-char (x / 4) (omega arith), base64_value-char (x % 4 * 16) (omega arith))
      (ap (λ b. some (b ∷ [])) (omega arith))

quanta-encode : (s : Text) → All IsByte s → base64_quanta true (base64_encode s) ≡ some s
unfolding base64_quanta
quanta-encode [] h = refl
quanta-encode (x ∷ []) h = quantum_2-chars x h.0
quanta-encode (x ∷ y ∷ []) h =
    rw (char_not_pad (y % 16 * 4) (omega arith)) (quantum_3-chars x y h.0 h.1.0)
quanta-encode (x ∷ y ∷ z ∷ s) h =
    rw (char_not_pad (z % 64) (omega arith), quanta-encode s h.1.1.1)
      (quantum_4-chars x y z s h.0 h.1.0 h.1.1.0)

pad-IsPlain : IsPlain b'='
pad-IsPlain = (omega arith, omega arith)

pub encode-IsPlain : (s : Text) → All IsByte s → All IsPlain (base64_encode s)
encode-IsPlain [] h = tt
encode-IsPlain (x ∷ []) h = (
  char-IsPlain (x / 4) (omega arith),
  (char-IsPlain (x % 4 * 16) (omega arith), (pad-IsPlain, (pad-IsPlain, tt))),
)
encode-IsPlain (x ∷ y ∷ []) h = (
  char-IsPlain (x / 4) (omega arith),
  (
    char-IsPlain (x % 4 * 16 + y / 16) (omega arith),
    (char-IsPlain (y % 16 * 4) (omega arith), (pad-IsPlain, tt)),
  ),
)
encode-IsPlain (x ∷ y ∷ z ∷ s) h = (
  char-IsPlain (x / 4) (omega arith),
  (
    char-IsPlain (x % 4 * 16 + y / 16) (omega arith),
    (
      char-IsPlain (y % 16 * 4 + z / 64) (omega arith),
      (char-IsPlain (z % 64) (omega arith), encode-IsPlain s h.1.1.1),
    ),
  ),
)

without_line_ends_plain : (s : Text) → All IsPlain s → without_line_ends s ≡ s
without_line_ends_plain [] h = refl
without_line_ends_plain (c ∷ s) h =
    rw (not_equal c 10 (omega arith), not_equal c 13 (omega arith), without_line_ends_plain s h.1)

pub base64_decode-base64_encode :
    (s : Text) → All IsByte s → base64_decode true (base64_encode s) ≡ some s
unfolding base64_decode
base64_decode-base64_encode s h =
    rw (without_line_ends_plain (base64_encode s) (encode-IsPlain s h)) (quanta-encode s h)

hex_byte-none : (h l : Option ℕ) → hex_byte h l none ≡ none
hex_byte-none none l = refl
hex_byte-none (some h) none = refl
hex_byte-none (some h) (some l) = refl

hex_byte-bad : (h : Option ℕ) (s : Option Text) → hex_byte h none s ≡ none
hex_byte-bad none s = refl
hex_byte-bad (some h) s = refl

-- Base64 that ends with padding is not hexadecimal.
pub hex_decode-base64_encode : (s : Text) → length s % 3 ≢ 0 → hex_decode (base64_encode s) ≡ none
unfolding hex_decode
hex_decode-base64_encode [] h = elim (h refl) [ ]
hex_decode-base64_encode (x ∷ []) h = hex_byte-none _ _
hex_decode-base64_encode (x ∷ y ∷ []) h =
    rw (hex_byte-bad (hex_value (base64_char (y % 16 * 4))) (some [])) (hex_byte-none _ _)
hex_decode-base64_encode (x ∷ y ∷ z ∷ s) h =
    rw
      (
        hex_decode-base64_encode s (λ e. h (omega arith)),
        hex_byte-none (hex_value (base64_char (y % 16 * 4 + z / 64)))
            (hex_value (base64_char (z % 64))),
      )
      (hex_byte-none _ _)
