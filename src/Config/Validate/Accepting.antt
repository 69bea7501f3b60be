-- ===== src/Config/Validate/Accepting.antt =====
-- What the `Validate` functions accept.
use mule.Base.{ℕ, ◌≡◌, refl, ◌≢◌, ◌↔◌, Text, Bool, true, false, [], ◌∷◌, Result, ok, err, arith}
use mule.Config.Strings.{contains, class_match}
use mule.Config.Strings.Cutting.{contains-all}
use mule.Config.Address.{HostPortError}
use mule.Config.Address.Ports.{Accepted, validate_host_port_iff}
use mule.Config.Validate.{
  with_address, validate_route_id, validate_client_id, validate_tcp_address,
  validate_listen_address, validate_udp_address, route_id_pattern, client_id_pattern, is_route_char,
  is_client_char,
}

pub validate_route_id_iff :
    (route : Text) → (validate_route_id route ≡ ok tt) ↔ (route_id_pattern route ≡ true)
unfolding validate_route_id
validate_route_id_iff route = (λ e. ground arith, λ e. ground arith)

pub validate_client_id_iff :
    (id : Text) → (validate_client_id id ≡ ok tt) ↔ (client_id_pattern id ≡ true)
unfolding validate_client_id
validate_client_id_iff id = (λ e. ground arith, λ e. ground arith)

with_address_iff :
    (addr : Text) (r : Result HostPortError (Unit {0}))
    → (with_address addr r ≡ ok tt) ↔ (r ≡ ok tt)
with_address_iff addr (ok tt) = (λ e. refl, λ e. refl)
with_address_iff addr (err x) = (λ e. cc, λ e. cc)

module _ (addr : Text) where
  pub validate_tcp_address_iff : (validate_tcp_address addr ≡ ok tt) ↔ Accepted addr false
  unfolding validate_tcp_address
  validate_tcp_address_iff = (
    λ e. (validate_host_port_iff addr false).0 ((with_address_iff addr _).0 e),
    λ a. (with_address_iff addr _).1 ((validate_host_port_iff addr false).1 a),
  )

  pub validate_listen_address_iff : (validate_listen_address addr ≡ ok tt) ↔ Accepted addr true
  unfolding validate_listen_address
  validate_listen_address_iff = (
    λ e. (validate_host_port_iff addr true).0 ((with_address_iff addr _).0 e),
    λ a. (with_address_iff addr _).1 ((validate_host_port_iff addr true).1 a),
  )

  pub validate_udp_address_iff : (validate_udp_address addr ≡ ok tt) ↔ Accepted addr true
  unfolding validate_udp_address
  validate_udp_address_iff = (
    λ e. (validate_host_port_iff addr true).0 ((with_address_iff addr _).0 e),
    λ a. (with_address_iff addr _).1 ((validate_host_port_iff addr true).1 a),
  )

-- The separators of a mapping are in no identifier.
pub route_id-no_eq : (route : Text) → route_id_pattern route ≡ true → contains b'=' route ≡ false
route_id-no_eq route h = contains-all is_route_char b'=' route refl (ground arith)

pub client_id-no_eq : (id : Text) → client_id_pattern id ≡ true → contains b'=' id ≡ false
client_id-no_eq id h = contains-all is_client_char b'=' id refl (ground arith)

pub client_id-no_colon : (id : Text) → client_id_pattern id ≡ true → contains b':' id ≡ false
client_id-no_colon id h = contains-all is_client_char b':' id refl (ground arith)

pub class_match_nonempty :
    (class : ℕ → Bool) (n : ℕ) (s : Text) → class_match class n s ≡ true → s ≢ []
class_match_nonempty class n [] h = cc
class_match_nonempty class n (c ∷ s) h = λ e. cc
