-- ===== src/Auth/Serials.antt =====
-- The serial numbers of the certificates.
use native.Mathlib.Numerals.{unary_clauses}
use native.Mathlib.Nat.{mul-le-mul_right}
use mule.Base.{
  ℕ, zero, suc, refl, ◌∙◌, subst, Bool-cases, Option-cases, inl, inr, ◌*◌, ◌^◌, ◌%◌, ◌≤◌, ◌<◌, ◌≡◌,
  Text, false, [], ◌∷◌, some, length, All, IsByte, ok, arith,
}
use mule.Auth.Keys.{
  Crypto, all_zero, clear_sign, set_last, set_bytes, nonzero_serial, hkdf_salt, serial_number,
}

set_bytes-bound : (b : Text) → All IsByte b → set_bytes b < 256 ^ length b
set_bytes-bound [] h = omega arith
set_bytes-bound (v ∷ b) h =
    let rest = set_bytes-bound b h.1 in
    let step = mul-le-mul_right (256 ^ length b) h.0 in simp unary_clauses (omega arith)

power_positive : (n : ℕ) → 1 ≤ 256 ^ n
power_positive zero = omega arith
power_positive (suc n) = let rest = power_positive n in simp unary_clauses (omega arith)

one_le : (v : ℕ) → 1 ≤ suc v
one_le v = omega arith

set_bytes-positive : (b : Text) → all_zero b ≡ false → 1 ≤ set_bytes b
set_bytes-positive [] h = cc
set_bytes-positive (zero ∷ b) h = let rest = set_bytes-positive b h in omega arith
set_bytes-positive (suc v ∷ b) h =
    let power = power_positive (length b) in
    let at_least = mul-le-mul_right (256 ^ length b) (one_le v) in omega arith

set_last-positive : (v : ℕ) (b : Text) → 1 ≤ set_bytes (set_last (v ∷ b))
set_last-positive v [] = omega arith
set_last-positive v (w ∷ b) = let rest = set_last-positive w b in omega arith

set_last-bytes :
    (b : Text) → All IsByte b → (length (set_last b) ≡ length b) × All IsByte (set_last b)
set_last-bytes [] h = (refl, tt)
set_last-bytes (v ∷ []) h = (refl, (omega arith, tt))
set_last-bytes (v ∷ w ∷ b) h =
    let (same, bytes) = set_last-bytes (w ∷ b) h.1 in (rw same, (h.0, bytes))

-- Of sixteen bytes with the first below 128.
set_bytes-below :
    (v : ℕ) (b : Text) → v < 128 → length b ≡ 15 → All IsByte b → set_bytes (v ∷ b) < 2 ^ 127
set_bytes-below v b small fifteen bytes =
    let rest : set_bytes b < 256 ^ 15 =
      subst (λ n. set_bytes b < 256 ^ n) fifteen (set_bytes-bound b bytes) in
    let head : v * 256 ^ length b ≡ v * 256 ^ 15 = rw fifteen in omega arith

nonzero_serial-bounds :
    (v : ℕ) (b : Text)
    → v < 128
    → length b ≡ 15
    → All IsByte b
    → (1 ≤ nonzero_serial (v ∷ b)) × (nonzero_serial (v ∷ b) < 2 ^ 127)
nonzero_serial-bounds v [] small fifteen bytes = absurd (omega arith)
nonzero_serial-bounds v (w ∷ b) small fifteen bytes = elim (Bool-cases (all_zero (v ∷ w ∷ b))) [
  | inl zeros ↦
      let (same, bytes') = set_last-bytes (w ∷ b) bytes in
      rw zeros (
        set_last-positive v (w ∷ b),
        set_bytes-below v (set_last (w ∷ b)) small (same ∙ fifteen) bytes',
      )
  | inr some_one ↦
      rw some_one
        (set_bytes-positive (v ∷ w ∷ b) some_one, set_bytes-below v (w ∷ b) small fifteen bytes)
]

clear_sign-bounds :
    (b : Text)
    → length b ≡ 16
    → All IsByte b
    → (1 ≤ nonzero_serial (clear_sign b)) × (nonzero_serial (clear_sign b) < 2 ^ 127)
clear_sign-bounds [] h bytes = absurd (omega arith)
clear_sign-bounds (v ∷ b) h bytes =
    nonzero_serial-bounds (v % 128) b (omega arith) (omega arith) bytes.1

-- A serial number is positive and below 2^127, if HKDF gives as many bytes as are asked for.
pub serial_number-bounds :
    (crypto : Crypto) (secret label : Text) (n : ℕ)
    → ((out : Text)
        → crypto.hkdf secret hkdf_salt label 16 ≡ some out
        → (length out ≡ 16) × All IsByte out)
    → serial_number crypto secret label ≡ ok n
    → (1 ≤ n) × (n < 2 ^ 127)
unfolding serial_number
serial_number-bounds crypto secret label n gives e =
    elim (Option-cases (crypto.hkdf secret hkdf_salt label 16)) [
      | inl short ↦ absurd (ground arith)
      | inr (out, full) ↦
          let (sixteen, bytes) = gives out full in
          let is : nonzero_serial (clear_sign out) ≡ n = ground arith in
          subst (λ m. (1 ≤ m) × (m < 2 ^ 127)) is (clear_sign-bounds out sixteen bytes)
    ]
