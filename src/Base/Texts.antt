-- ===== src/Base/Texts.antt =====
-- A Go string is its bytes; a Go map with string keys is the list of its entries.
use Prim.Native.Nat.{ℕ, ◌<◌}
use Prim.Native.Char.{code}
use Prim.Native.String.{String}
use mathlib.Core.Path.{◌≡◌, refl}
use mathlib.Core.Logic.{◌↔◌}
use mathlib.Core.Bool.{Bool, true, false, ◌&&◌}
use mathlib.Core.List.{List, [], ◌∷◌}
use mathlib.Core.Option.{Option, none, some}
use native.Mathlib.Omega.{arith}
use mule.Base.Tests.{◌==◌, if◌then◌else◌}

abbrev pub Text : Type 0
Text = List ℕ

abbrev pub IsByte : ℕ → Type 0
IsByte b = b < 256

-- The bytes of an ASCII literal.
abbrev pub codes : String → Text
codes String.[] = []
codes (String.◌∷◌ c s) = code c ∷ codes s

abbrev pub text_eq : Text → Text → Bool
text_eq [] [] = true
text_eq [] (y ∷ ys) = false
text_eq (x ∷ xs) [] = false
text_eq (x ∷ xs) (y ∷ ys) = x == y && text_eq xs ys

pub text_eq_refl : (s : Text) → text_eq s s ≡ true
text_eq_refl [] = refl
text_eq_refl (x ∷ s) = ground (arith, text_eq_refl s)

pub text_eq_sound : (s t : Text) → text_eq s t ≡ true → s ≡ t
text_eq_sound [] [] h = refl
text_eq_sound [] (y ∷ t) h = cc
text_eq_sound (x ∷ s) [] h = cc
text_eq_sound (x ∷ s) (y ∷ t) h = ground (arith, text_eq_sound s t)

pub text_eq_iff : (s t : Text) → (text_eq s t ≡ true) ↔ (s ≡ t)
text_eq_iff s t = (text_eq_sound s t, λ e. rw e (text_eq_refl t))

module _ {ℓ} {V : Type ℓ} where
  -- `m[k]`.
  unfoldable pub lookup : Text → List (Text × V) → Option V
  lookup k (entry ∷ m) = if text_eq entry.0 k then some entry.1 else lookup k m
  lookup k [] = none

  -- `m[k] = v`.
  unfoldable pub insert : Text → V → List (Text × V) → List (Text × V)
  insert k v (entry ∷ m) = if text_eq entry.0 k then (k, v) ∷ m else entry ∷ insert k v m
  insert k v [] = (k, v) ∷ []

  -- `delete(m, k)`.
  unfoldable pub delete : Text → List (Text × V) → List (Text × V)
  delete k (entry ∷ m) = if text_eq entry.0 k then delete k m else entry ∷ delete k m
  delete k [] = []

  pub lookup-insert :
      (k j : Text) (v : V) (m : List (Text × V))
      → lookup j (insert k v m) ≡ (if text_eq k j then some v else lookup j m)
  unfolding lookup insert
  lookup-insert k j v [] = refl
  lookup-insert k j v (entry ∷ m) =
      let ih = lookup-insert k j v m in
      ground (arith, ih, text_eq_iff entry.0 k, text_eq_iff entry.0 j, text_eq_iff k j)

  pub lookup-delete :
      (k j : Text) (m : List (Text × V))
      → lookup j (delete k m) ≡ (if text_eq k j then none else lookup j m)
  unfolding lookup delete
  lookup-delete k j [] = ground arith
  lookup-delete k j ((i, w) ∷ m) =
      ground (arith, text_eq_iff k j, text_eq_iff i k, text_eq_iff i j, lookup-delete k j m)
