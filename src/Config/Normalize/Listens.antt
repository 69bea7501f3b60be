-- ===== src/Config/Normalize/Listens.antt =====
-- What `NormalizeForwardListens` accepts.
use mule.Base.{
  ◌≡◌, refl, subst, ◌≢◌, ◌↔◌, Text, true, false, not, [], ◌∷◌, List, ok, guard, arith, on_ok,
  ok-injective, All, map, has_text, Distinct, Avoids, Avoids-cons, Avoids-nil,
}
use mule.Config.Address.Ports.{Accepted}
use mule.Config.Validate.{
  validate_route_id, validate_listen_address, route_id_pattern, no_listen, duplicate_listen_route,
}
use mule.Config.Validate.Accepting.{validate_route_id_iff, validate_listen_address_iff}
use mule.Config.Parse.{RouteListen}
use mule.Config.Normalize.{
  Forward, forward_listens, check_listens, normalize_forward_listens, is_nil,
}

abbrev pub ListenIsValid : RouteListen → Type 0
ListenIsValid l = (route_id_pattern l.route ≡ true) × Accepted l.address true

abbrev pub listen_routes : List RouteListen → List Text
listen_routes = map λ l. l.route

-- Each route is new, and so are those behind it.
ListensAreValid : List Text → List RouteListen → Type 0
ListensAreValid seen ls =
    All ListenIsValid ls × Avoids seen (listen_routes ls) × Distinct (listen_routes ls)

check_listens_iff :
    (seen : List Text) (ls : List RouteListen)
    → (check_listens seen ls ≡ ok tt) ↔ ListensAreValid seen ls
unfolding check_listens ListensAreValid
check_listens_iff seen [] = (λ e. (tt, tt, tt), λ h. refl)
check_listens_iff seen (l ∷ ls) =
    let (found, passes) = check_listens_iff (l.route ∷ seen) ls in
    (
      λ e. on_ok (validate_route_id l.route) _ e λ u route e1.
          on_ok (validate_listen_address l.address) _ e1 λ u' address e2.
            on_ok (guard (not (has_text l.route seen)) (duplicate_listen_route l.route)) _ e2
              λ u'' new e3.
                let (valid, avoids, distinct) = found e3 in
                let (ahead, rest) = (Avoids-cons l.route seen (listen_routes ls)).0 avoids in
                (
                  (
                    (
                      (validate_route_id_iff l.route).0 route,
                      (validate_listen_address_iff l.address).0 address,
                    ),
                    valid,
                  ),
                  (ground arith, rest),
                  (ahead, distinct),
                ),
      λ h.
          rw
            (
              (validate_route_id_iff l.route).1 h.0.0.0,
              (validate_listen_address_iff l.address).1 h.0.0.1,
              h.1.0,
            )
            (passes (h.0.1, (Avoids-cons l.route seen (listen_routes ls)).1 (h.2.0, h.1.1), h.2.1)),
    )

nil_iff : (ls : List RouteListen) → (is_nil ls ≡ false) ↔ (ls ≢ [])
nil_iff [] = (λ e. cc, λ h. absurd (h refl))
nil_iff (l ∷ ls) = (λ e q. cc, λ h. refl)

-- `NormalizeForwardListens` succeeds exactly if there is a listen, every route and every address
-- is valid and no route stands twice; it returns the listens in their order, the one of
-- `ListenTCP` first as the default route.
pub normalize_forward_listens_iff :
    (cfg : Forward) (out : List RouteListen)
    → (normalize_forward_listens cfg ≡ ok out) ↔ (
        (out ≡ forward_listens cfg)
        × (out ≢ [])
        × All ListenIsValid out
        × Distinct (listen_routes out))
unfolding normalize_forward_listens ListensAreValid
normalize_forward_listens_iff cfg out = (
  λ e. on_ok (guard (not (is_nil (forward_listens cfg))) no_listen) _ e λ u some_listen e1.
      on_ok (check_listens [] (forward_listens cfg)) _ e1 λ u' checked e2.
        let (valid, avoids, distinct) = (check_listens_iff [] (forward_listens cfg)).0 checked in
        subst Form (ok-injective e2)
          (refl, (nil_iff (forward_listens cfg)).0 (ground arith), valid, distinct),
  λ h. rw (
    ← h.0,
    (nil_iff out).1 h.1,
    (check_listens_iff [] out).1 (h.2, Avoids-nil (listen_routes out), h.3),
  ),
)
  where
    Form : List RouteListen → Type 0
    Form ls =
        (ls ≡ forward_listens cfg) × (ls ≢ []) × All ListenIsValid ls × Distinct (listen_routes ls)
