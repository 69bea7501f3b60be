-- ===== src/Base/Results.antt =====
-- Go's pair of a value and an error, and its chain `if err != nil { return err }`.
use mathlib.Core.Path.{◌≡◌, refl, ap}
use mathlib.Core.Logic.{◌⊎◌, inl, inr, ◌↔◌}
use mathlib.Core.Bool.{Bool, true, false}

pub data Result {ℓ κ} (E : Type ℓ) (A : Type κ) : Type (ℓ ⊔ κ) where
  ok : A → Result E A
  err : E → Result E A

infixl 5 ◌>>=◌ ◌>>◌
abbrev pub ◌>>=◌ {ℓ κ μ} :
    {E : Type ℓ} {A : Type κ} {B : Type μ} → Result E A → (A → Result E B) → Result E B
err failure >>= k = err failure
ok value >>= k = k value

abbrev pub ◌>>◌ {ℓ κ} : {E : Type ℓ} {B : Type κ} → Result E (Unit {0}) → Result E B → Result E B
m >> k = m >>= λ _. k

-- `if !test { return e }`.
abbrev pub guard {ℓ} : {E : Type ℓ} (test : Bool) → E → Result E (Unit {0})
guard false failure = err failure
guard true failure = ok tt

module _ {ℓ κ} {E : Type ℓ} {A : Type κ} where
  pub Result-cases : (r : Result E A) → ((a : A) × (r ≡ ok a)) ⊎ ((e : E) × (r ≡ err e))
  Result-cases (ok a) = inl (a, refl)
  Result-cases (err e) = inr (e, refl)

  -- What a chain that succeeded has passed through.
  pub ok_parts {μ} :
      {B : Type μ} {result : B} (step : Result E A) (k : A → Result E B)
      → (step >>= k) ≡ ok result
      → (value : A) × (step ≡ ok value) × (k value ≡ ok result)
  ok_parts (err failure) k h = cc
  ok_parts (ok value) k h = (value, refl, h)

  pub ok-injective : {a b : A} → ◌≡◌ {A = Result E A} (ok a) (ok b) → a ≡ b
  ok-injective h = cc

  -- The same, handing the parts on.
  pub on_ok {μ ν} :
      {B : Type μ} {C : Type ν} (m : Result E A) (f : A → Result E B) {b : B}
      → (m >>= f) ≡ ok b
      → ((a : A) → m ≡ ok a → f a ≡ ok b → C)
      → C
  on_ok (ok a) f h next = next a refl h
  on_ok (err e) f h next = absurd (cc)

-- An error passed on as the caller's.
abbrev pub map_err {ℓ κ μ} :
    {E : Type ℓ} {F : Type κ} {A : Type μ} → (E → F) → Result E A → Result F A
map_err f (ok a) = ok a
map_err f (err e) = err (f e)

pub map_err_iff {ℓ κ μ} :
    {E : Type ℓ} {F : Type κ} {A : Type μ} (f : E → F) (r : Result E A) (a : A)
    → (map_err f r ≡ ok a) ↔ (r ≡ ok a)
map_err_iff f (ok b) a = (λ e. ap ok (ok-injective e), λ e. ap ok (ok-injective e))
map_err_iff f (err e) a = (λ e. cc, λ e. cc)
