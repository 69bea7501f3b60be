-- ===== src/Config/Limits.antt =====
-- Durations and limits, as the `ApplyDefaults` and `ValidateConfig` functions of the server and of
-- the agent treat them. Durations are in nanoseconds.
use mule.Base.{ℕ, Bool, false, ◌≡◌, ◌↔◌, ◌≤◌, if◌then◌else◌, ℤ, pos, leb_ℤ, eq_ℤ, ◌≤ℤ◌, ◌<ℤ◌, arith}

abbrev pub second : ℕ
second = 1000000000

-- `if field == 0 { field = value }`.
abbrev pub or_default : ℤ → ℕ → ℤ
or_default field value = if eq_ℤ field (pos 0) then pos value else field

-- `value <= 0`.
abbrev pub not_positive : ℤ → Bool
not_positive value = leb_ℤ value (pos 0)

abbrev pub IsPositive : ℤ → Type 0
IsPositive n = pos 0 <ℤ n

pub not_positive-IsPositive : (n : ℤ) → (not_positive n ≡ false) ↔ IsPositive n
not_positive-IsPositive n = (λ e. ground arith, λ h. ground arith)

pub or_default-IsPositive :
    (field : ℤ) (value : ℕ) → 1 ≤ value → IsPositive (or_default field value) ↔ (pos 0 ≤ℤ field)
or_default-IsPositive field value h = (λ p. ground arith, λ p. ground arith)

pub or_default_idem :
    (field : ℤ) (value : ℕ) → or_default (or_default field value) value ≡ or_default field value
or_default_idem field value = ground arith
