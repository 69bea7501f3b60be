-- ===== src/Config/Strings.antt =====
-- What the package uses of `strings`, `strconv` and `regexp`, on the bytes of a text.
pub mod Cutting
use mule.Base.{
  ℕ, ◌+◌, ◌-◌, ◌*◌, ◌^◌, Text, Bool, true, false, ◌&&◌, ◌||◌, [], ◌∷◌, Option, none, some, length,
  all, leb, ◌==◌, if◌then◌else◌, ℤ, pos, negsuc, text_eq, List,
}
use mathlib.Core.Option

unfoldable pub contains : ℕ → Text → Bool
contains b [] = false
contains b (c ∷ s) = c == b || contains b s

abbrev pub keep_front : ℕ → Text × Text → Text × Text
keep_front c (before, after) = (c ∷ before, after)

-- `strings.Cut` at a one-byte separator, the first there is; `none` is `found == false`.
unfoldable pub cut : ℕ → Text → Option (Text × Text)
cut sep [] = none
cut sep (c ∷ s) = if c == sep then some ([], s) else Option.map (keep_front c) (cut sep s)

abbrev pub is_empty : Text → Bool
is_empty [] = true
is_empty (c ∷ s) = false

abbrev pub is_digit : ℕ → Bool
is_digit c = leb b'0' c && leb c b'9'

abbrev pub is_alnum : ℕ → Bool
is_alnum c = leb b'A' c && leb c b'Z' || (leb b'a' c && leb c b'z' || (leb b'0' c && leb c b'9'))

-- `^[class]{1,n}$` on a class of ASCII characters.
abbrev pub class_match : (ℕ → Bool) → ℕ → Text → Bool
class_match class n s = leb 1 (length s) && (leb (length s) n && all class s)

-- The loop of `strconv.Atoi` over the digits.
unfoldable pub digits_value : ℕ → Text → Option ℕ
digits_value n [] = some n
digits_value n (c ∷ s) =
    let rest = digits_value (n * 10 + (c - b'0')) s in if is_digit c then rest else none

abbrev pub int_max : ℕ
int_max = 2 ^ 63 - 1

-- A magnitude that fits `int`, which has 64 bits.
abbrev pub positive : ℕ → Option ℤ
positive n = if leb n int_max then some (pos n) else none

abbrev pub negative : ℕ → Option ℤ
negative n =
    if n == 0 then some (pos 0) else if leb n (int_max + 1) then some (negsuc (n - 1)) else none

unfoldable pub unsigned : Text → Option ℕ
unfolding digits_value
unsigned [] = none
unsigned (c ∷ s) = digits_value 0 (c ∷ s)

-- `strconv.Atoi`; `none` is an error, of syntax or of range.
unfoldable pub atoi : Text → Option ℤ
unfolding unsigned Option.bind
atoi [] = none
atoi (c ∷ s) =
    if c == b'-'
    then Option.bind (unsigned s) negative
    else if c == b'+'
    then Option.bind (unsigned s) positive
    else Option.bind (unsigned (c ∷ s)) positive
