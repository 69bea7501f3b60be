-- ===== src/Base/Entries.antt =====
-- An entry in the middle of a map.
use mathlib.Core.Path.{◌≡◌, refl}
use mathlib.Core.Bool.{false}
use mathlib.Core.List.{List, [], ◌∷◌, ◌++◌}
use mathlib.Core.Option.{some}
use native.Mathlib.Omega.{arith}
use mule.Base.Texts.{Text, text_eq, text_eq_refl, text_eq_iff, lookup, delete}
use mule.Base.Keys.{has_text, keys, IsMap, keys-append, has_text-append}

module _ {ℓ} {V : Type ℓ} where
  delete_fresh : (k : Text) (m : List (Text × V)) → has_text k (keys m) ≡ false → delete k m ≡ m
  unfolding delete has_text
  delete_fresh k [] h = refl
  delete_fresh k ((j, v) ∷ m) h = ground (arith, delete_fresh k m)

  -- A key ahead of the entry differs from it, and is not behind it.
  key_apart :
      (j k : Text) (v : V) (xs ys : List (Text × V))
      → has_text j (keys (xs ++ (k, v) ∷ ys)) ≡ false
      → (text_eq j k ≡ false) × (text_eq k j ≡ false) × (has_text j (keys (xs ++ ys)) ≡ false)
  unfolding has_text
  key_apart j k v [] ys h =
      (ground (arith, text_eq_iff j k, text_eq_iff k j), ground arith, ground arith)
  key_apart j k v ((i, w) ∷ xs) ys h =
      let (a, b, c) = key_apart j k v xs ys (ground arith) in (a, b, ground arith)

  pub lookup-middle :
      (k : Text) (v : V) (xs ys : List (Text × V))
      → IsMap (xs ++ (k, v) ∷ ys)
      → lookup k (xs ++ (k, v) ∷ ys) ≡ some v
  unfolding lookup
  lookup-middle k v [] ys h = rw (text_eq_refl k)
  lookup-middle k v ((j, w) ∷ xs) ys h =
      let (a, b, c) = key_apart j k v xs ys h.0 in rw a (lookup-middle k v xs ys h.1)

  pub delete-middle :
      (k : Text) (v : V) (xs ys : List (Text × V))
      → IsMap (xs ++ (k, v) ∷ ys)
      → delete k (xs ++ (k, v) ∷ ys) ≡ xs ++ ys
  unfolding delete
  delete-middle k v [] ys h = rw (text_eq_refl k) (delete_fresh k ys h.0)
  delete-middle k v ((j, w) ∷ xs) ys h =
      let (a, b, c) = key_apart j k v xs ys h.0 in rw (a, delete-middle k v xs ys h.1)

  pub without_middle-IsMap :
      (k : Text) (v : V) (xs ys : List (Text × V)) → IsMap (xs ++ (k, v) ∷ ys) → IsMap (xs ++ ys)
  without_middle-IsMap k v [] ys h = h.1
  without_middle-IsMap k v ((j, w) ∷ xs) ys h =
      let (a, b, c) = key_apart j k v xs ys h.0 in (c, without_middle-IsMap k v xs ys h.1)

  pub snoc-IsMap :
      (k : Text) (v : V) (m : List (Text × V))
      → has_text k (keys m) ≡ false
      → IsMap m
      → IsMap (m ++ (k, v) ∷ [])
  unfolding has_text
  snoc-IsMap k v [] fresh h = (refl, tt)
  snoc-IsMap k v ((j, w) ∷ m) fresh h = (
    ground (
      arith,
      text_eq_iff j k,
      text_eq_iff k j,
      keys-append m ((k, v) ∷ []),
      has_text-append j (keys m) (k ∷ []),
    ),
    snoc-IsMap k v m (ground arith) h.1,
  )
