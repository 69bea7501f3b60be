-- ===== src/Config/Strings/Cutting.antt =====
-- What `cut` finds.
use mule.Base.{
  ℕ, ◌≡◌, refl, ap, ◌≢◌, Text, Bool, true, false, ◌||◌, [], ◌∷◌, ◌++◌, none, some, Bool-cases, inl,
  inr, ◌==◌, arith, all, ==_iff, Option-cases,
}
use mule.Config.Strings.{contains, cut}

pub contains-append : (b : ℕ) (s t : Text) → contains b (s ++ t) ≡ (contains b s || contains b t)
unfolding contains
contains-append b [] t = refl
contains-append b (c ∷ s) t = ground (arith, contains-append b s t)

-- A character outside a class is in no text of that class.
pub contains-all :
    (class : ℕ → Bool) (b : ℕ) (s : Text)
    → class b ≡ false
    → all class s ≡ true
    → contains b s ≡ false
unfolding contains
contains-all class b [] out h = refl
contains-all class b (c ∷ s) out h = elim (Bool-cases (c == b)) [
  | inl e ↦ absurd (cc (out, ap class ((==_iff c b).0 e), h))
  | inr e ↦ ground (arith, contains-all class b s)
]

pub cut_first :
    (sep : ℕ) (s t : Text) → contains sep s ≡ false → cut sep (s ++ sep ∷ t) ≡ some (s, t)
unfolding cut contains
cut_first sep [] t h = ground arith
cut_first sep (c ∷ s) t h = ground (arith, cut_first sep s t)

pub cut_found :
    (sep : ℕ) (s before after : Text)
    → cut sep s ≡ some (before, after)
    → (s ≡ before ++ sep ∷ after) × (contains sep before ≡ false)
unfolding cut contains
cut_found sep [] before after h = cc
cut_found sep (c ∷ s) before after h = elim (Bool-cases (c == sep)) [
  | inl e ↦ ground arith
  | inr e ↦ elim (Option-cases (cut sep s)) [
    | inl q ↦ ground arith
    | inr ((a, b), q) ↦ ground (arith, cut_found sep s a b)
  ]
]

pub cut_missing : (sep : ℕ) (s : Text) → contains sep s ≡ true → cut sep s ≢ none
unfolding cut contains
cut_missing sep [] h = cc
cut_missing sep (c ∷ s) h = ground (arith, cut_missing sep s)
