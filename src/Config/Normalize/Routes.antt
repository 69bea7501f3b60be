-- ===== src/Config/Normalize/Routes.antt =====
-- What `NormalizeExitRoutes` accepts.
use mule.Base.{
  ◌≡◌, refl, ◌∙◌, sym, subst, ◌≢◌, ◌↔◌, Text, Bool, true, false, not, [], ◌∷◌, ◌++◌, List, ok,
  guard, arith, on_ok, ok-injective, All, Avoids, Avoids-cons, Avoids-nil, IsMap, keys, keys-append,
  lookup, insert_fresh, missing_iff, Avoids-snoc, append_assoc, append-nil, if◌then◌else◌, Option,
  none, some,
}
use mule.Config.Strings.{is_empty}
use mule.Config.Address.Ports.{Accepted}
use mule.Config.Validate.{
  validate_route_id, validate_tcp_address, route_id_pattern, no_target, duplicate_route,
  simple_routes_unavailable,
}
use mule.Config.Validate.Accepting.{validate_route_id_iff, validate_tcp_address_iff}
use mule.Config.Normalize.{
  Exit, multi_client_mode, default_route, target_route, add_routes, check_routes,
  normalize_exit_routes, is_nil, is_none,
}

-- A valid route to a target with a host.
abbrev pub RouteIsValid : Text × Text → Type 0
RouteIsValid (route, target) = (route_id_pattern route ≡ true) × Accepted target false

pub check_routes_iff :
    (routes : List (Text × Text)) → (check_routes routes ≡ ok tt) ↔ All RouteIsValid routes
unfolding check_routes
check_routes_iff [] = (λ e. tt, λ h. refl)
check_routes_iff ((r, t) ∷ rest) =
    let (found, passes) = check_routes_iff rest in
    (
      λ e. on_ok (validate_route_id r) _ e λ u route e1.
          on_ok (validate_tcp_address t) _ e1 λ u' target e2.
            (((validate_route_id_iff r).0 route, (validate_tcp_address_iff t).0 target), found e2),
      λ h.
          rw ((validate_route_id_iff r).1 h.0.0, (validate_tcp_address_iff t).1 h.0.1) (passes h.1),
    )

none_of : (o : Option Text) → is_none o ≡ true → o ≡ none
none_of none e = refl
none_of (some a) e = cc

add_routes_iff :
    (base rest out : List (Text × Text))
    → IsMap rest
    → (add_routes base rest ≡ ok out) ↔ ((out ≡ base ++ rest) × Avoids (keys base) (keys rest))
unfolding add_routes
add_routes_iff base [] out m =
    (λ e. (rw append-nil (sym (ok-injective e)), tt), λ h. rw (h.0, append-nil))
add_routes_iff base ((k, v) ∷ rest) out m =
    let (found, adds) = add_routes_iff (base ++ (k, v) ∷ []) rest out m.1 in
    (
      λ e. on_ok (guard (is_none (lookup k base)) (duplicate_route k)) _ e λ u new e1.
          let fresh = (missing_iff k base).0 (none_of (lookup k base) (ground arith)) in
          let (whole, avoids) = found (rw (insert_fresh k v base fresh) at e1) in
          (
            whole ∙ append_assoc base ((k, v) ∷ []) rest,
            (fresh, ((Avoids-snoc k (keys base) (keys rest)).0 (rw keys-append at avoids)).1),
          ),
      λ h.
          rw ((missing_iff k base).1 h.1.0, insert_fresh k v base h.1.0)
            (adds (
              h.0 ∙ sym (append_assoc base ((k, v) ∷ []) rest),
              rw keys-append ((Avoids-snoc k (keys base) (keys rest)).1 (m.0, h.1.1)),
            )),
    )

nil_iff : (ls : List (Text × Text)) → (is_nil ls ≡ false) ↔ (ls ≢ [])
nil_iff [] = (λ e. cc, λ h. absurd (h refl))
nil_iff (l ∷ ls) = (λ e q. cc, λ h. refl)

-- At most one entry in front of a map keeps it one exactly if its key is new.
front_iff :
    (b : Bool) (k v : Text) (rest : List (Text × Text))
    → IsMap rest
    → let front : List (Text × Text) = if b then [] else (k, v) ∷ [] in
      Avoids (keys front) (keys rest) ↔ IsMap (front ++ rest)
front_iff true k v rest m = (λ a. m, λ h. Avoids-nil (keys rest))
front_iff false k v rest m =
    let (to, from) = Avoids-cons k [] (keys rest) in
    (λ a. ((to a).0, m), λ h. from (h.0, Avoids-nil (keys rest)))

-- On the entries of a Go map, in any order, `NormalizeExitRoutes` succeeds exactly if no client is
-- configured, there is a route, the default route of `Target` is not given twice, and every route
-- and target is valid; it returns the routes, that of `Target` among them.
pub normalize_exit_routes_iff :
    (cfg : Exit) (out : List (Text × Text))
    → IsMap cfg.routes
    → (normalize_exit_routes cfg ≡ ok out) ↔ (
        (multi_client_mode cfg ≡ false)
        × (out ≡ target_route cfg ++ cfg.routes)
        × (out ≢ [])
        × IsMap out
        × All RouteIsValid out)
unfolding normalize_exit_routes
normalize_exit_routes_iff cfg out m = (
  λ e. on_ok (guard (not (multi_client_mode cfg)) simple_routes_unavailable) _ e λ u simple e1.
      on_ok (add_routes (target_route cfg) cfg.routes) _ e1 λ routes added e2.
        on_ok (guard (not (is_nil routes)) no_target) _ e2 λ u' some_route e3.
          on_ok (check_routes routes) _ e3 λ u'' checked e4.
            let (whole, avoids) = (add_routes_iff (target_route cfg) cfg.routes routes m).0 added in
            subst Form (ok-injective e4) (
              ground arith,
              whole,
              (nil_iff routes).0 (ground arith),
              rw whole (fronts.0 avoids),
              (check_routes_iff routes).0 checked,
            ),
  λ h. rw (
    h.0,
    (add_routes_iff (target_route cfg) cfg.routes out m).1 (h.1, fronts.1 (rw h.1 at h.3)),
    (nil_iff out).1 h.2,
    (check_routes_iff out).1 h.4,
  ),
)
  where
    fronts :
        Avoids (keys (target_route cfg)) (keys cfg.routes) ↔ IsMap (target_route cfg ++ cfg.routes)
    fronts = front_iff (is_empty cfg.target) default_route cfg.target cfg.routes m

    Form : List (Text × Text) → Type 0
    Form routes =
        (multi_client_mode cfg ≡ false)
        × (routes ≡ target_route cfg ++ cfg.routes)
        × (routes ≢ [])
        × IsMap routes
        × All RouteIsValid routes
