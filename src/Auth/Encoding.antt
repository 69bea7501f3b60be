-- ===== src/Auth/Encoding.antt =====
-- What internal/auth/secret.go uses of encoding/hex, encoding/base64 and strings, on the bytes of
-- a text.
pub mod RoundTrip
pub mod Trimming
use mule.Base.{
  ℕ, zero, suc, ◌+◌, ◌-◌, ◌*◌, ◌/◌, ◌%◌, Text, Bool, true, false, not, ◌&&◌, ◌||◌, [], ◌∷◌, Option,
  none, some, leb, ltb, ◌==◌, if◌then◌else◌,
}
use mule.Config.Strings.{is_empty}

-- A digit of hexadecimal, of either case.
abbrev pub hex_value : ℕ → Option ℕ
hex_value c =
    if leb b'0' c && leb c b'9'
    then some (c - b'0')
    else if leb b'a' c && leb c b'f'
    then some (c - b'a' + 10)
    else if leb b'A' c && leb c b'F'
    then some (c - b'A' + 10)
    else none

abbrev pub hex_byte : Option ℕ → Option ℕ → Option Text → Option Text
hex_byte (some h) (some l) (some rest) = some ((h * 16 + l) ∷ rest)
hex_byte h l rest = none

-- `hex.DecodeString`; `none` is an error.
unfoldable pub hex_decode : Text → Option Text
hex_decode [] = some []
hex_decode (h ∷ []) = none
hex_decode (h ∷ l ∷ s) = hex_byte (hex_value h) (hex_value l) (hex_decode s)

abbrev pub hex_digit : ℕ → ℕ
hex_digit n = if ltb n 10 then b'0' + n else b'a' + (n - 10)

-- `hex.EncodeToString`.
abbrev pub hex_encode : Text → Text
hex_encode [] = []
hex_encode (b ∷ s) = hex_digit (b / 16) ∷ hex_digit (b % 16) ∷ hex_encode s

-- A character of the standard alphabet.
abbrev pub base64_value : ℕ → Option ℕ
base64_value c =
    if leb b'A' c && leb c b'Z'
    then some (c - b'A')
    else if leb b'a' c && leb c b'z'
    then some (c - b'a' + 26)
    else if leb b'0' c && leb c b'9'
    then some (c - b'0' + 52)
    else if c == b'+'
    then some 62
    else if c == b'/'
    then some 63
    else none

-- The bytes of a quantum of two, three and four characters; the bits that are left over are not
-- looked at.
abbrev pub quantum_2 : Option ℕ → Option ℕ → Option Text
quantum_2 (some a) (some b) = some ((a * 4 + b / 16) ∷ [])
quantum_2 a b = none

abbrev pub quantum_3 : Option ℕ → Option ℕ → Option ℕ → Option Text
quantum_3 (some a) (some b) (some c) = some ((a * 4 + b / 16) ∷ (b % 16 * 16 + c / 4) ∷ [])
quantum_3 a b c = none

abbrev pub quantum_4 : Option ℕ → Option ℕ → Option ℕ → Option ℕ → Option Text → Option Text
quantum_4 (some a) (some b) (some c) (some d) (some rest) =
    some ((a * 4 + b / 16) ∷ (b % 16 * 16 + c / 4) ∷ (c % 4 * 64 + d) ∷ rest)
quantum_4 a b c d rest = none

-- The last quantum, padded: nothing may follow it.
abbrev pub padded_quantum : ℕ → ℕ → ℕ → Text → Option Text
padded_quantum a b c s =
    if not (is_empty s)
    then none
    else if c == b'='
    then quantum_2 (base64_value a) (base64_value b)
    else quantum_3 (base64_value a) (base64_value b) (base64_value c)

-- The loop of `Decode` without line ends, with padding or without.
unfoldable pub base64_quanta : Bool → Text → Option Text
base64_quanta padded [] = some []
base64_quanta padded (a ∷ []) = none
base64_quanta padded (a ∷ b ∷ []) =
    if padded then none else quantum_2 (base64_value a) (base64_value b)
base64_quanta padded (a ∷ b ∷ c ∷ []) =
    if padded then none else quantum_3 (base64_value a) (base64_value b) (base64_value c)
base64_quanta padded (a ∷ b ∷ c ∷ d ∷ s) =
    let rest = base64_quanta padded s in
    if padded && d == b'='
    then padded_quantum a b c s
    else quantum_4 (base64_value a) (base64_value b) (base64_value c) (base64_value d) rest

-- The decoder skips line ends wherever they stand.
abbrev pub without_line_ends : Text → Text
without_line_ends [] = []
without_line_ends (c ∷ s) =
    if c == 10 || c == 13 then without_line_ends s else c ∷ without_line_ends s

-- `base64.StdEncoding.DecodeString` and `base64.RawStdEncoding.DecodeString`.
unfoldable pub base64_decode : Bool → Text → Option Text
unfolding base64_quanta
base64_decode padded s = base64_quanta padded (without_line_ends s)

abbrev pub base64_char : ℕ → ℕ
base64_char n =
    if ltb n 26
    then b'A' + n
    else if ltb n 52
    then b'a' + (n - 26)
    else if ltb n 62
    then b'0' + (n - 52)
    else if n == 62
    then b'+'
    else b'/'

-- `base64.StdEncoding.EncodeToString`.
abbrev pub base64_encode : Text → Text
base64_encode [] = []
base64_encode (x ∷ []) = base64_char (x / 4) ∷ base64_char (x % 4 * 16) ∷ b'=' ∷ b'=' ∷ []
base64_encode (x ∷ y ∷ []) =
    base64_char (x / 4) ∷ base64_char (x % 4 * 16 + y / 16) ∷ base64_char (y % 16 * 4) ∷ b'=' ∷ []
base64_encode (x ∷ y ∷ z ∷ s) =
    base64_char (x / 4)
    ∷ base64_char (x % 4 * 16 + y / 16)
    ∷ base64_char (y % 16 * 4 + z / 64)
    ∷ base64_char (z % 64)
    ∷ base64_encode s

-- How many bytes the space takes with which a text starts, in UTF-8; none if it starts with no
-- character of Unicode's White_Space.
abbrev pub space_3 : ℕ → ℕ → ℕ → ℕ
space_3 a b c =
    if a == 0xe1 && (b == 0x9a && c == 0x80)
      || (a == 0xe2
            && (b == 0x80 && (leb 0x80 c && leb c 0x8a || (c == 0xa8 || (c == 0xa9 || c == 0xaf))))
          || (a == 0xe2 && (b == 0x81 && c == 0x9f) || a == 0xe3 && (b == 0x80 && c == 0x80)))
    then 3
    else 0

abbrev pub space_2 : ℕ → ℕ → ℕ
space_2 a b = if a == 0xc2 && (b == 0x85 || b == 0xa0) then 2 else 0

abbrev pub is_ascii_space : ℕ → Bool
is_ascii_space c = leb 9 c && leb c 13 || c == 32

abbrev pub space_length : Text → ℕ
space_length [] = 0
space_length (a ∷ []) = if is_ascii_space a then 1 else 0
space_length (a ∷ b ∷ []) = if is_ascii_space a then 1 else space_2 a b
space_length (a ∷ b ∷ c ∷ s) =
    if is_ascii_space a then 1 else if space_2 a b == 2 then 2 else space_3 a b c

-- With so many bytes of a space still to be dropped.
unfoldable pub trim_left : ℕ → Text → Text
trim_left skip [] = []
trim_left (suc skip) (c ∷ s) = trim_left skip s
trim_left zero (c ∷ s) =
    let rest = trim_left (space_length (c ∷ s) - 1) s in
    if space_length (c ∷ s) == 0 then c ∷ s else rest

-- What is left of a text before the spaces at its end.
unfoldable pub trim_right : Text → Text
unfolding trim_left
trim_right [] = []
trim_right (c ∷ s) =
    let rest = trim_right s in if is_empty (trim_left 0 (c ∷ s)) then [] else c ∷ rest

-- `strings.TrimSpace`.
unfoldable pub trim_space : Text → Text
unfolding trim_left trim_right
trim_space s = trim_right (trim_left 0 s)
