-- ===== src/Logging/Runs.antt =====
-- Concrete events.
use mule.Base.{ℕ, ◌+◌, ◌≡◌, refl, Text, [], ◌∷◌, List, codes, lookup, insert}
use mule.Logging.{Field, text, other, info, Logger, new_logger, pairs, log}

abbrev written : Logger → List (Field ℕ) → Text
unfolding log
written logger fields =
    log (λ n. (b'0' + n) ∷ []) (λ n. codes "?") (λ m. codes "{}\n") logger info (codes "up") fields

line :
    written
      (new_logger (codes "text") (codes "info"))
      (text (codes "id") ∷ text (codes "gpu") ∷ text (codes "n") ∷ other 3 ∷ [])
    ≡ codes "level=info event=up id=gpu n=3\n"
unfolding log written pairs lookup insert
line = refl

filtered : written (new_logger (codes "text") (codes "warn")) [] ≡ []
unfolding log written
filtered = refl

-- An unknown level is info; a key that is no string goes with its value, a last key without.
odd :
    written
      (new_logger (codes "json") (codes "loud"))
      (other 1 ∷ text (codes "x") ∷ text (codes "y") ∷ [])
    ≡ codes "{}\n"
unfolding log written pairs insert lookup
odd = refl
