-- ===== src/Config/Services.antt =====
-- The loop over the services of a map that the `ValidateConfig` functions of the server and of the
-- agent run, twice each.
use mule.Base.{◌≡◌, refl, ◌↔◌, Text, true, [], ◌∷◌, List, Result, ok, ◌>>◌, on_ok, All}
use mule.Config.Validate.{Error, validate_route_id, route_id_pattern}
use mule.Config.Validate.Accepting.{validate_route_id_iff}

-- With the validation of the addresses.
unfoldable pub check_services :
    (Text → Result Error (Unit {0})) → List (Text × Text) → Result Error (Unit {0})
check_services validate_address [] = ok tt
check_services validate_address ((service, addr) ∷ rest) = do
  validate_route_id service
  validate_address addr
  check_services validate_address rest

abbrev pub ServiceIsValid : (Text → Type 0) → Text × Text → Type 0
ServiceIsValid AddressIsValid (service, addr) =
    (route_id_pattern service ≡ true) × AddressIsValid addr

pub check_services_iff :
    (validate_address : Text → Result Error (Unit {0})) (AddressIsValid : Text → Type 0)
    → ((addr : Text) → (validate_address addr ≡ ok tt) ↔ AddressIsValid addr)
    → (services : List (Text × Text))
    → (check_services validate_address services ≡ ok tt)
      ↔ All (ServiceIsValid AddressIsValid) services
unfolding check_services
check_services_iff v P iff [] = (λ e. tt, λ h. refl)
check_services_iff v P iff ((service, addr) ∷ rest) =
    let (found, passes) = check_services_iff v P iff rest in
    (
      λ e. on_ok (validate_route_id service) _ e λ u route e1. on_ok (v addr) _ e1 λ u' address e2.
          (((validate_route_id_iff service).0 route, (iff addr).0 address), found e2),
      λ h. rw ((validate_route_id_iff service).1 h.0.0, (iff addr).1 h.0.1) (passes h.1),
    )
