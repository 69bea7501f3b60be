-- ===== src/Base.antt =====
-- The names that the other modules share: the libraries', passed on, and those of the children.
mod Tests
mod Lists
mod Results
mod Texts
mod Keys
mod Entries
mod Int
pub use Tests.*
pub use Lists.*
pub use Results.*
unfoldable pub use Texts.{lookup, insert, delete}
pub use Texts.{
  Text, IsByte, codes, text_eq, text_eq_refl, text_eq_sound, text_eq_iff, lookup-insert,
  lookup-delete,
}
unfoldable pub use Keys.{has_text}
pub use Keys.{
  Distinct, Avoids, Avoids-cons, Avoids-nil, keys, IsMap, lookup_fresh, insert_fresh, has_text_iff,
  missing_iff, keys-append, has_text-append, Avoids-snoc,
}
pub use Entries.{lookup-middle, delete-middle, without_middle-IsMap, snoc-IsMap}
pub use Int.*
pub use Prim.Native.Nat.{ℕ, zero, suc, ◌+◌, ◌-◌, ◌*◌, ◌/◌, ◌%◌, ◌^◌, ◌≤◌, ◌<◌, min}
pub use mathlib.Core.Path.{◌≡◌, refl, sym, ap, ◌∙◌, subst}
pub use mathlib.Core.Logic.{◌≢◌, ◌↔◌, ◌⊎◌, inl, inr}
pub use mathlib.Core.Bool.{Bool, true, false, not, ◌&&◌, ◌||◌}
pub use mathlib.Core.Option.{Option, none, some}
pub use mathlib.Core.List.{List, [], ◌∷◌, ◌++◌, map, append-nil, append_assoc}
pub use native.Mathlib.Omega.{arith}
