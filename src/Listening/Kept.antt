-- ===== src/Listening/Kept.antt =====
-- Slots and connections, as `admit` and `release` keep them.
use mule.Base.{
  ℕ, suc, ◌+◌, ◌==◌, ◌≡◌, ◌≤◌, refl, true, [], ◌∷◌, List, if◌then◌else◌, ltb, length, Bool-cases,
  inl, inr, arith,
}
use mule.Listening.{Held, admit, is_in, remove, release}

-- How often a connection is in a list.
abbrev pub count : ℕ → List ℕ → ℕ
count x [] = 0
count x (y ∷ ys) = if x == y then suc (count x ys) else count x ys

-- A slot is taken exactly while a goroutine runs, and no more than there are.
abbrev pub Fits : ℕ → Held → Type 0
Fits capacity held = (held.taken_slots ≡ length held.serving) × (held.taken_slots ≤ capacity)

-- How often a connection is running, has been served or has been closed.
abbrev pub settled : ℕ → Held → ℕ
settled x held = count x held.serving + count x held.served + count x held.rejected

pub admit-Fits :
    (capacity conn : ℕ) (held : Held)
    → Fits capacity held
    → Fits capacity (admit capacity conn held)
unfolding admit
admit-Fits capacity conn held h = elim (Bool-cases (ltb held.taken_slots capacity)) [
  | inl free ↦ rw free (omega arith, ground arith)
  | inr full ↦ rw full h
]

pub settled-admit :
    (capacity conn x : ℕ) (held : Held)
    → settled x (admit capacity conn held) ≡ count x (conn ∷ []) + settled x held
unfolding admit
settled-admit capacity conn x held = ground arith

length-remove : (x : ℕ) (ys : List ℕ) → is_in x ys ≡ true → length ys ≡ suc (length (remove x ys))
length-remove x [] e = absurd (cc)
length-remove x (y ∷ ys) e = ground (arith, length-remove x ys)

count-remove :
    (x z : ℕ) (ys : List ℕ)
    → is_in x ys ≡ true
    → count z ys ≡ count z (x ∷ []) + count z (remove x ys)
count-remove x z [] e = absurd (cc)
count-remove x z (y ∷ ys) e = ground (arith, count-remove x z ys)

pub release-Fits :
    (capacity conn : ℕ) (held : Held) → Fits capacity held → Fits capacity (release conn held)
unfolding release
release-Fits capacity conn held h = elim (Bool-cases (is_in conn held.serving)) [
  | inl there ↦
      rw there (let shorter = length-remove conn held.serving there in (omega arith, omega arith))
  | inr absent ↦ rw absent h
]

pub settled-release : (conn x : ℕ) (held : Held) → settled x (release conn held) ≡ settled x held
unfolding release
settled-release conn x held = elim (Bool-cases (is_in conn held.serving)) [
  | inl there ↦ rw there (let kept = count-remove conn x held.serving there in ground arith)
  | inr absent ↦ rw absent refl
]
