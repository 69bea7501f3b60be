-- ===== src/Base/Keys.antt =====
-- Keys: sets of texts, and maps whose keys are distinct.
use mathlib.Core.Path.{◌≡◌, refl}
use mathlib.Core.Logic.{◌↔◌, ◌⊎◌}
use mathlib.Core.Bool.{Bool, true, false, ◌||◌}
use mathlib.Core.List.{List, [], ◌∷◌, ◌++◌}
use mathlib.Core.Option.{none}
use native.Mathlib.Omega.{arith}
use mule.Base.Texts.{Text, text_eq, text_eq_iff, lookup, insert}

-- Membership in a Go map that serves as a set.
unfoldable pub has_text : Text → List Text → Bool
has_text k [] = false
has_text k (j ∷ s) = text_eq j k || has_text k s

abbrev pub Distinct : List Text → Type 0
Distinct [] = Unit
Distinct (k ∷ ks) = (has_text k ks ≡ false) × Distinct ks

-- No key of the second list stands in the first.
abbrev pub Avoids : List Text → List Text → Type 0
Avoids seen [] = Unit
Avoids seen (k ∷ ks) = (has_text k seen ≡ false) × Avoids seen ks

pub Avoids-cons :
    (k : Text) (seen ks : List Text)
    → Avoids (k ∷ seen) ks ↔ ((has_text k ks ≡ false) × Avoids seen ks)
unfolding has_text
Avoids-cons k seen [] = (λ a. (refl, tt), λ a. tt)
Avoids-cons k seen (j ∷ ks) =
    let (to, from) = Avoids-cons k seen ks in
    (
      λ a. ground (arith, text_eq_iff j k, text_eq_iff k j, to a.1),
      λ a. ground (arith, text_eq_iff j k, text_eq_iff k j, from (ground arith, a.1.1)),
    )

pub Avoids-nil : (ks : List Text) → Avoids [] ks
unfolding has_text
Avoids-nil [] = tt
Avoids-nil (k ∷ ks) = (refl, Avoids-nil ks)

pub has_text_iff :
    (k j : Text) (ks : List Text)
    → (has_text k (j ∷ ks) ≡ true) ↔ ((j ≡ k) ⊎ (has_text k ks ≡ true))
unfolding has_text
has_text_iff k j ks = (λ e. ground (arith, text_eq_iff j k), λ e. ground (arith, text_eq_iff j k))

module _ {ℓ} {V : Type ℓ} where
  abbrev pub keys : List (Text × V) → List Text
  keys [] = []
  keys ((k, v) ∷ m) = k ∷ keys m

  -- The entries of a Go map.
  abbrev pub IsMap : List (Text × V) → Type 0
  IsMap m = Distinct (keys m)

  pub lookup_fresh :
      (k : Text) (m : List (Text × V)) → has_text k (keys m) ≡ false → lookup k m ≡ none
  unfolding lookup has_text
  lookup_fresh k [] h = refl
  lookup_fresh k ((j, v) ∷ m) h = ground (arith, lookup_fresh k m)

  pub insert_fresh :
      (k : Text) (v : V) (m : List (Text × V))
      → has_text k (keys m) ≡ false
      → insert k v m ≡ m ++ (k, v) ∷ []
  unfolding insert has_text
  insert_fresh k v [] h = refl
  insert_fresh k v ((j, w) ∷ m) h = ground (arith, insert_fresh k v m)

  lookup_missing :
      (k : Text) (m : List (Text × V)) → lookup k m ≡ none → has_text k (keys m) ≡ false
  unfolding lookup has_text
  lookup_missing k [] e = refl
  lookup_missing k ((j, v) ∷ m) e = ground (arith, lookup_missing k m)

  pub missing_iff :
      (k : Text) (m : List (Text × V)) → (lookup k m ≡ none) ↔ (has_text k (keys m) ≡ false)
  missing_iff k m = (lookup_missing k m, lookup_fresh k m)

  pub keys-append : (m n : List (Text × V)) → keys (m ++ n) ≡ keys m ++ keys n
  keys-append [] n = refl
  keys-append ((k, v) ∷ m) n = rw (keys-append m n)

pub has_text-append :
    (k : Text) (xs ys : List Text) → has_text k (xs ++ ys) ≡ (has_text k xs || has_text k ys)
unfolding has_text
has_text-append k [] ys = refl
has_text-append k (x ∷ xs) ys = ground (arith, has_text-append k xs ys)

-- The same for a key that joins at the end.
pub Avoids-snoc :
    (k : Text) (seen ks : List Text)
    → Avoids (seen ++ k ∷ []) ks ↔ ((has_text k ks ≡ false) × Avoids seen ks)
unfolding has_text
Avoids-snoc k seen [] = (λ a. (refl, tt), λ a. tt)
Avoids-snoc k seen (j ∷ ks) =
    let (to, from) = Avoids-snoc k seen ks in
    (
      λ a.
          ground (arith, text_eq_iff j k, text_eq_iff k j, has_text-append j seen (k ∷ []), to a.1),
      λ a. ground (
        arith,
        text_eq_iff j k,
        text_eq_iff k j,
        has_text-append j seen (k ∷ []),
        from (ground arith, a.1.1),
      ),
    )
