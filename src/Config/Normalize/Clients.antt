-- ===== src/Config/Normalize/Clients.antt =====
-- What `NormalizeClientRoutes` accepts.
use mule.Base.{
  ◌≡◌, refl, ◌∙◌, sym, ◌≢◌, ◌↔◌, Text, true, false, not, [], ◌∷◌, List, ok, guard, arith, on_ok,
  ok-injective, All, has_text, Distinct, Avoids-nil, keys, lookup,
}
use mule.Config.Validate.{no_client, mixed_modes, no_routes}
use mule.Config.Parse.{Client}
use mule.Config.Normalize.{
  Exit, check_clients, copy_client_routes, check_routed, lacks_routes, mixes_modes,
  normalize_client_routes, is_nil,
}
use mule.Config.Normalize.Copies.{
  ClientIsValid, client_ids, collected, check_clients_iff, has_text-collected, EntryIsValid,
  IsMapOfMaps, copy_client_routes_iff,
}

lacks_routes-lookup :
    (seen : List Text) (k : Text) (m : List (Text × List (Text × Text)))
    → All (EntryIsValid seen) m
    → lacks_routes (lookup k m) ≡ not (has_text k (keys m))
unfolding lookup has_text
lacks_routes-lookup seen k [] h = refl
lacks_routes-lookup seen k ((j, v) ∷ m) h = ground (arith, lacks_routes-lookup seen k m h.1)

abbrev pub IsRouted : List (Text × List (Text × Text)) → Client → Type 0
IsRouted m c = has_text c.id (keys m) ≡ true

check_routed_iff :
    (seen : List Text) (m : List (Text × List (Text × Text))) (cs : List Client)
    → All (EntryIsValid seen) m
    → (check_routed m cs ≡ ok tt) ↔ All (IsRouted m) cs
unfolding check_routed
check_routed_iff seen m [] h = (λ e. tt, λ a. refl)
check_routed_iff seen m (c ∷ cs) h =
    let (found, passes) = check_routed_iff seen m cs h in
    let lacks = lacks_routes-lookup seen c.id m h in
    (
      λ e.
          on_ok (guard (not (lacks_routes (lookup c.id m))) (no_routes c.id)) _ e
            λ u routed e1. (ground arith, found e1),
      λ a. rw (lacks, a.0) (passes a.1),
    )

known_iff :
    (cs : List Client) (m : List (Text × List (Text × Text)))
    → All (EntryIsValid (collected [] cs)) m ↔ All (EntryIsValid (client_ids cs)) m
known_iff cs [] = (λ h. tt, λ h. tt)
known_iff cs ((k, v) ∷ m) =
    let (to, from) = known_iff cs m in
    let same : has_text k (collected [] cs) ≡ has_text k (client_ids cs) =
      has_text-collected k [] cs ∙ (unfold has_text in refl) in
    (λ h. ((sym same ∙ h.0.0, h.0.1, h.0.2), to h.1), λ h. ((same ∙ h.0.0, h.0.1, h.0.2), from h.1))

clients_nil_iff : (cs : List Client) → (is_nil cs ≡ false) ↔ (cs ≢ [])
clients_nil_iff [] = (λ e. cc, λ h. absurd (h refl))
clients_nil_iff (c ∷ cs) = (λ e q. cc, λ h. refl)

-- What a multi-client configuration has to hold: some clients and no simple mode beside them, with
-- distinct valid ids and a secret file each; routes of these clients only, some of each, all valid.
pub record ClientsAreValid (cfg : Exit) : Type 0 where
  pub some_client : cfg.clients ≢ []
  pub unmixed : mixes_modes cfg ≡ false
  pub valid : All ClientIsValid cfg.clients
  pub distinct : Distinct (client_ids cfg.clients)
  pub entries : All (EntryIsValid (client_ids cfg.clients)) cfg.client_routes
  pub routed : All (IsRouted cfg.client_routes) cfg.clients

-- On Go maps, in any order of their entries, `NormalizeClientRoutes` succeeds exactly on a valid
-- multi-client configuration, and returns a copy of its client routes.
pub normalize_client_routes_iff :
    (cfg : Exit) (out : List (Text × List (Text × Text)))
    → IsMapOfMaps cfg.client_routes
    → (normalize_client_routes cfg ≡ ok out) ↔ ((out ≡ cfg.client_routes) × ClientsAreValid cfg)
unfolding normalize_client_routes
normalize_client_routes_iff cfg out m = (
  λ e. on_ok (guard (not (is_nil cfg.clients)) no_client) _ e λ u some_client e1.
      on_ok (guard (not (mixes_modes cfg)) mixed_modes) _ e1 λ u' unmixed e2.
        on_ok (check_clients [] cfg.clients) _ e2 λ seen checked e3.
          on_ok (copy_client_routes seen [] cfg.client_routes) _ e3 λ copy copied e4.
            on_ok (check_routed copy cfg.clients) _ e4 λ u'' routed e5.
              let (collects, valid, avoids, distinct) =
                (check_clients_iff [] cfg.clients seen).0 checked in
              let (same, entries) =
                (copy_client_routes_iff seen [] cfg.client_routes copy m (Avoids-nil _)).0 copied in
              (
                sym (ok-injective e5) ∙ same,
                record {
                  some_client = (clients_nil_iff cfg.clients).0 (ground arith);
                  unmixed = ground arith;
                  valid = valid;
                  distinct = distinct;
                  entries = (known_iff cfg.clients cfg.client_routes).0 (rw collects at entries);
                  routed =
                      (check_routed_iff seen cfg.client_routes cfg.clients entries).0
                        (rw same at routed);
                },
              ),
  λ h.
      let c = h.1 in
      let entries = (known_iff cfg.clients cfg.client_routes).1 c.entries in
      rw
        (
          (clients_nil_iff cfg.clients).1 c.some_client,
          c.unmixed,
          (check_clients_iff [] cfg.clients (collected [] cfg.clients)).1
              (refl, c.valid, Avoids-nil (client_ids cfg.clients), c.distinct),
          (copy_client_routes_iff (collected [] cfg.clients) [] cfg.client_routes cfg.client_routes
                m (Avoids-nil (keys cfg.client_routes))).1
              (refl, entries),
          (check_routed_iff (collected [] cfg.clients) cfg.client_routes cfg.clients entries).1
              c.routed,
        )
        (rw h.0),
)
