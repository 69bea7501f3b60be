-- ===== src/Config/Parse/Mappings.antt =====
-- What the `Parse` functions accept, and that they read back what is written in their form.
use mule.Base.{
  ℕ, ◌≡◌, refl, ap, ◌∙◌, sym, subst, ◌≢◌, ◌↔◌, Text, Bool, true, false, ◌||◌, [], ◌∷◌, ◌++◌, ok,
  arith, Option, some, none, on_ok, ok-injective, inl, inr,
}
use mule.Config.Strings.{contains, cut, is_empty}
use mule.Config.Strings.Cutting.{contains-append, cut_first, cut_found}
use mule.Config.Address.Ports.{Accepted}
use mule.Config.Validate.{
  Error, bad_mapping, bad_client_route, validate_route_id, validate_client_id, validate_tcp_address,
  validate_listen_address, route_id_pattern, client_id_pattern, is_route_char, is_client_char,
}
use mule.Config.Validate.Accepting.{
  validate_route_id_iff, validate_client_id_iff, validate_tcp_address_iff,
  validate_listen_address_iff, route_id-no_eq, client_id-no_eq, client_id-no_colon,
  class_match_nonempty,
}
use mule.Config.Parse.{
  RouteListen, Client, both_parts, split_mapping, parse_route_listen, parse_client,
  parse_client_route_target,
}

nonempty : (l r : Text) → (is_empty l || is_empty r) ≡ false → (l ≢ []) × (r ≢ [])
nonempty [] r h = cc
nonempty (c ∷ l) [] h = cc
nonempty (c ∷ l) (d ∷ r) h = (λ e. cc, λ e. cc)

both_parts_eq :
    (x : Error) (o : Option (Text × Text)) (left right : Text)
    → both_parts x o ≡ ok (left, right)
    → (o ≡ some (left, right)) × ((is_empty left || is_empty right) ≡ false)
both_parts_eq x none left right e = cc
both_parts_eq x (some (a, b)) left right e = ground arith

not_empty : (s : Text) → s ≢ [] → is_empty s ≡ false
not_empty [] h = absurd (h refl)
not_empty (c ∷ s) h = refl

-- A text is split at the first separator, and only between two parts that are not empty.
both_parts_iff :
    (sep : ℕ) (x : Error) (s left right : Text)
    → (both_parts x (cut sep s) ≡ ok (left, right))
      ↔ ((s ≡ left ++ sep ∷ right) × (contains sep left ≡ false) × (left ≢ []) × (right ≢ []))
both_parts_iff sep x s left right = (
  λ e.
      let (q, full) = both_parts_eq x (cut sep s) left right e in
      let (whole, first) = cut_found sep s left right q in
      let (l, r) = nonempty left right full in (whole, first, l, r),
  λ p. rw (p.0, cut_first sep left right p.1, not_empty left p.2, not_empty right p.3) refl,
)

split_mapping_iff :
    (v left right : Text)
    → (split_mapping v ≡ ok (left, right))
      ↔ ((v ≡ left ++ b'=' ∷ right) × (contains b'=' left ≡ false) × (left ≢ []) × (right ≢ []))
unfolding split_mapping
split_mapping_iff v left right = both_parts_iff b'=' (bad_mapping v) v left right

form_nonempty : (host port : Text) (x : ℕ) → host ++ x ∷ port ≢ []
form_nonempty [] port x e = cc
form_nonempty (c ∷ host) port x e = cc

Accepted-ne-nil : (addr : Text) (allow : Bool) → Accepted addr allow → addr ≢ []
Accepted-ne-nil addr allow a e = elim a.form [
  | inl (whole, h, p) ↦ form_nonempty a.host a.port b':' (sym whole ∙ e)
  | inr (whole, h, p) ↦ cc (sym whole ∙ e)
]

-- `ParseRouteListen` accepts exactly the texts `route=address` with a valid route and a valid
-- listen address, and returns these.
pub parse_route_listen_iff :
    (v : Text) (l : RouteListen)
    → (parse_route_listen v ≡ ok l) ↔ (
        (v ≡ l.route ++ b'=' ∷ l.address)
        × (route_id_pattern l.route ≡ true)
        × Accepted l.address true)
unfolding parse_route_listen
parse_route_listen_iff v l = (
  λ e. on_ok (split_mapping v) _ e λ parts split e1.
      on_ok (validate_route_id parts.0) _ e1 λ u valid e2.
        on_ok (validate_listen_address parts.1) _ e2 λ u' address e3. subst Form (ok-injective e3) (
          ((split_mapping_iff v parts.0 parts.1).0 split).0,
          (validate_route_id_iff parts.0).0 valid,
          (validate_listen_address_iff parts.1).0 address,
        ),
  λ p. rw (
    (split_mapping_iff v l.route l.address).1 (
      p.0,
      route_id-no_eq l.route p.1,
      class_match_nonempty is_route_char 64 l.route p.1,
      Accepted-ne-nil l.address true p.2,
    ),
    (validate_route_id_iff l.route).1 p.1,
    (validate_listen_address_iff l.address).1 p.2,
  ),
)
  where
    Form : RouteListen → Type 0
    Form k =
        (v ≡ k.route ++ b'=' ∷ k.address)
        × (route_id_pattern k.route ≡ true)
        × Accepted k.address true

-- `ParseClient` accepts exactly the texts `id=path` with a valid client id and some path.
pub parse_client_iff :
    (v : Text) (c : Client)
    → (parse_client v ≡ ok c) ↔ (
        (v ≡ c.id ++ b'=' ∷ c.secret_file) × (client_id_pattern c.id ≡ true) × (c.secret_file ≢ []))
unfolding parse_client
parse_client_iff v c = (
  λ e. on_ok (split_mapping v) _ e λ parts split e1.
      on_ok (validate_client_id parts.0) _ e1 λ u valid e2.
        let cut_at = (split_mapping_iff v parts.0 parts.1).0 split in
        subst Form (ok-injective e2) (cut_at.0, (validate_client_id_iff parts.0).0 valid, cut_at.3),
  λ p. rw (
    (split_mapping_iff v c.id c.secret_file).1
        (p.0, client_id-no_eq c.id p.1, class_match_nonempty is_client_char 63 c.id p.1, p.2),
    (validate_client_id_iff c.id).1 p.1,
  ),
)
  where
    Form : Client → Type 0
    Form k =
        (v ≡ k.id ++ b'=' ∷ k.secret_file) × (client_id_pattern k.id ≡ true) × (k.secret_file ≢ [])

left_no_eq :
    (id route : Text)
    → client_id_pattern id ≡ true
    → route_id_pattern route ≡ true
    → contains b'=' (id ++ b':' ∷ route) ≡ false
left_no_eq id route c r =
    rw (contains-append b'=' id (b':' ∷ route), client_id-no_eq id c)
      (unfold contains in route_id-no_eq route r)

-- `ParseClientRouteTarget` accepts exactly the texts `client:route=target` with a valid client id,
-- a valid route and a valid target with a host, and returns these.
pub parse_client_route_target_iff :
    (v id route target : Text)
    → (parse_client_route_target v ≡ ok (id, route, target)) ↔ (
        (v ≡ (id ++ b':' ∷ route) ++ b'=' ∷ target)
        × (client_id_pattern id ≡ true)
        × (route_id_pattern route ≡ true)
        × Accepted target false)
unfolding parse_client_route_target
parse_client_route_target_iff v id route target = (
  λ e. on_ok (split_mapping v) _ e λ parts split e1.
      on_ok (both_parts (bad_client_route v) (cut b':' parts.0)) _ e1 λ names inner e2.
        on_ok (validate_client_id names.0) _ e2 λ u client e3.
          on_ok (validate_route_id names.1) _ e3 λ u' valid e4.
            on_ok (validate_tcp_address parts.1) _ e4 λ u'' address e5.
              subst Form (ok-injective e5) (
                ((split_mapping_iff v parts.0 parts.1).0 split).0
                    ∙ ap (λ (t : Text). t ++ b'=' ∷ parts.1)
                        ((both_parts_iff b':' (bad_client_route v) parts.0 names.0 names.1).0
                          inner).0,
                (validate_client_id_iff names.0).0 client,
                (validate_route_id_iff names.1).0 valid,
                (validate_tcp_address_iff parts.1).0 address,
              ),
  λ p. rw (
    (split_mapping_iff v (id ++ b':' ∷ route) target).1 (
      p.0,
      left_no_eq id route p.1 p.2,
      form_nonempty id route b':',
      Accepted-ne-nil target false p.3,
    ),
    (both_parts_iff b':' (bad_client_route v) (id ++ b':' ∷ route) id route).1 (
      refl,
      client_id-no_colon id p.1,
      class_match_nonempty is_client_char 63 id p.1,
      class_match_nonempty is_route_char 64 route p.2,
    ),
    (validate_client_id_iff id).1 p.1,
    (validate_route_id_iff route).1 p.2,
    (validate_tcp_address_iff target).1 p.3,
  ),
)
  where
    Form : Text × Text × Text → Type 0
    Form k =
        (v ≡ (k.0 ++ b':' ∷ k.1) ++ b'=' ∷ k.2)
        × (client_id_pattern k.0 ≡ true)
        × (route_id_pattern k.1 ≡ true)
        × Accepted k.2 false
