-- ===== src/Config/Normalize/Copies.antt =====
-- The clients and the client routes that `NormalizeClientRoutes` checks and copies.
use mule.Base.{
  ◌≡◌, refl, ◌∙◌, sym, ◌↔◌, Text, true, false, not, ◌||◌, [], ◌∷◌, ◌++◌, List, ok, guard, arith,
  on_ok, ok-injective, All, map, has_text, Distinct, Avoids, Avoids-cons, Avoids-nil, IsMap, keys,
  keys-append, insert_fresh, Avoids-snoc, append_assoc, append-nil,
}
use mule.Config.Strings.{is_empty}
use mule.Config.Validate.{
  validate_client_id, validate_route_id, validate_tcp_address, client_id_pattern, empty_secret_file,
  duplicate_client, unknown_client, no_routes,
}
use mule.Config.Validate.Accepting.{
  validate_client_id_iff, validate_route_id_iff, validate_tcp_address_iff,
}
use mule.Config.Parse.{Client}
use mule.Config.Normalize.{check_clients, copy_routes, copy_client_routes, is_nil}
use mule.Config.Normalize.Routes.{RouteIsValid}

abbrev pub ClientIsValid : Client → Type 0
ClientIsValid c = (client_id_pattern c.id ≡ true) × (is_empty c.secret_file ≡ false)

abbrev pub client_ids : List Client → List Text
client_ids = map λ c. c.id

abbrev pub collected : List Text → List Client → List Text
collected seen [] = seen
collected seen (c ∷ cs) = collected (c.id ∷ seen) cs

pub check_clients_iff :
    (seen : List Text) (cs : List Client) (out : List Text)
    → (check_clients seen cs ≡ ok out) ↔ (
        (out ≡ collected seen cs)
        × All ClientIsValid cs
        × Avoids seen (client_ids cs)
        × Distinct (client_ids cs))
unfolding check_clients
check_clients_iff seen [] out = (λ e. (sym (ok-injective e), tt, tt, tt), λ h. rw h.0)
check_clients_iff seen (c ∷ cs) out =
    let (found, passes) = check_clients_iff (c.id ∷ seen) cs out in
    (
      λ e. on_ok (validate_client_id c.id) _ e λ u id e1.
          on_ok (guard (not (is_empty c.secret_file)) (empty_secret_file c.id)) _ e1 λ u' secret e2.
            on_ok (guard (not (has_text c.id seen)) (duplicate_client c.id)) _ e2 λ u'' new e3.
              let (same, valid, avoids, distinct) = found e3 in
              let (ahead, rest) = (Avoids-cons c.id seen (client_ids cs)).0 avoids in
              (
                same,
                (((validate_client_id_iff c.id).0 id, ground arith), valid),
                (ground arith, rest),
                (ahead, distinct),
              ),
      λ h.
          rw ((validate_client_id_iff c.id).1 h.1.0.0, h.1.0.1, h.2.0)
            (passes (h.0, h.1.1, (Avoids-cons c.id seen (client_ids cs)).1 (h.3.0, h.2.1), h.3.1)),
    )

pub has_text-collected :
    (k : Text) (seen : List Text) (cs : List Client)
    → has_text k (collected seen cs) ≡ (has_text k seen || has_text k (client_ids cs))
unfolding has_text
has_text-collected k seen [] = ground arith
has_text-collected k seen (c ∷ cs) = ground (arith, has_text-collected k (c.id ∷ seen) cs)

pub copy_routes_iff :
    (out rest r : List (Text × Text))
    → IsMap rest
    → Avoids (keys out) (keys rest)
    → (copy_routes out rest ≡ ok r) ↔ ((r ≡ out ++ rest) × All RouteIsValid rest)
unfolding copy_routes
copy_routes_iff out [] r m a =
    (λ e. (rw append-nil (sym (ok-injective e)), tt), λ h. rw (h.0, append-nil))
copy_routes_iff out ((k, v) ∷ rest) r m a =
    let (found, copies) =
      copy_routes_iff (out ++ (k, v) ∷ []) rest r m.1
        (rw keys-append ((Avoids-snoc k (keys out) (keys rest)).1 (m.0, a.1))) in
    (
      λ e. on_ok (validate_route_id k) _ e λ u route e1.
          on_ok (validate_tcp_address v) _ e1 λ u' target e2.
            let (whole, valid) = found (rw (insert_fresh k v out a.0) at e2) in
            (
              whole ∙ append_assoc out ((k, v) ∷ []) rest,
              (((validate_route_id_iff k).0 route, (validate_tcp_address_iff v).0 target), valid),
            ),
      λ h.
          rw
            (
              (validate_route_id_iff k).1 h.1.0.0,
              (validate_tcp_address_iff v).1 h.1.0.1,
              insert_fresh k v out a.0,
            )
            (copies (h.0 ∙ sym (append_assoc out ((k, v) ∷ []) rest), h.1.1)),
    )

-- The routes of a known client, of which there are some.
abbrev pub EntryIsValid : List Text → Text × List (Text × Text) → Type 0
EntryIsValid ids (id, routes) =
    (has_text id ids ≡ true) × (is_nil routes ≡ false) × All RouteIsValid routes

-- Go maps in a Go map.
abbrev pub IsMapOfMaps : List (Text × List (Text × Text)) → Type 0
IsMapOfMaps m = IsMap m × All (λ (e : Text × List (Text × Text)). IsMap e.1) m

pub copy_client_routes_iff :
    (seen : List Text) (out rest r : List (Text × List (Text × Text)))
    → IsMapOfMaps rest
    → Avoids (keys out) (keys rest)
    → (copy_client_routes seen out rest ≡ ok r) ↔ ((r ≡ out ++ rest) × All (EntryIsValid seen) rest)
unfolding copy_client_routes
copy_client_routes_iff seen out [] r m a =
    (λ e. (rw append-nil (sym (ok-injective e)), tt), λ h. rw (h.0, append-nil))
copy_client_routes_iff seen out ((k, v) ∷ rest) r m a =
    let (found, copies) =
      copy_client_routes_iff seen (out ++ (k, v) ∷ []) rest r (m.0.1, m.1.1)
        (rw keys-append ((Avoids-snoc k (keys out) (keys rest)).1 (m.0.0, a.1))) in
    (
      λ e. on_ok (guard (has_text k seen) (unknown_client k)) _ e λ u known e1.
          on_ok (guard (not (is_nil v)) (no_routes k)) _ e1 λ u' some_route e2.
            on_ok (copy_routes [] v) _ e2 λ inner copied e3.
              let (same, valid) =
                (copy_routes_iff [] v inner m.1.0 (Avoids-nil (keys v))).0 copied in
              let (whole, rest_valid) = found (rw (same, insert_fresh k v out a.0) at e3) in
              (
                whole ∙ append_assoc out ((k, v) ∷ []) rest,
                ((ground arith, ground arith, valid), rest_valid),
              ),
      λ h.
          rw
            (
              h.1.0.0,
              h.1.0.1,
              (copy_routes_iff [] v v m.1.0 (Avoids-nil (keys v))).1 (refl, h.1.0.2),
              insert_fresh k v out a.0,
            )
            (copies (h.0 ∙ sym (append_assoc out ((k, v) ∷ []) rest), h.1.1)),
    )
