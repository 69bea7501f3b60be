-- ===== src/Agent/Startup/Closing.antt =====
-- What `Run` has opened is closed when it returns.
use mule.Base.{
  ℕ, ◌+◌, ◌≡◌, ◌≤◌, refl, Text, Bool, [], ◌∷◌, ◌++◌, List, text_eq, if◌then◌else◌, Bool-cases,
  Result-cases, inl, inr, arith,
}
use mule.Agent.Settings.{Config, apply_defaults, validate_config}
use mule.Agent.Startup.{
  Effect, opens, closes, starts_accepting, closes_connection, close_listeners, deferred,
  serve_listeners, open_listeners, run,
}

-- How often an address is opened, and closed.
abbrev pub opened : Text → List Effect → ℕ
opened a [] = 0
opened a (opens b ∷ es) = (if text_eq b a then 1 else 0) + opened a es
opened a (e ∷ es) = opened a es

abbrev pub closed : Text → List Effect → ℕ
closed a [] = 0
closed a (closes b ∷ es) = (if text_eq b a then 1 else 0) + closed a es
closed a (e ∷ es) = closed a es

abbrev times : Text → List Text → ℕ
times a [] = 0
times a (b ∷ bs) = (if text_eq b a then 1 else 0) + times a bs

times-append :
    (a b : Text) (bs : List Text)
    → times a (bs ++ b ∷ []) ≡ times a bs + (if text_eq b a then 1 else 0)
times-append a b [] = omega arith
times-append a b (c ∷ bs) = omega (arith, times-append a b bs)

closed-listeners :
    (a : Text) (bs : List Text) (es : List Effect)
    → closed a (close_listeners bs ++ es) ≡ times a bs + closed a es
closed-listeners a [] es = omega arith
closed-listeners a (b ∷ bs) es = omega (arith, closed-listeners a bs es)

opened-listeners :
    (a : Text) (bs : List Text) (es : List Effect)
    → opened a (close_listeners bs ++ es) ≡ opened a es
opened-listeners a [] es = refl
opened-listeners a (b ∷ bs) es = opened-listeners a bs es

-- What is still to be closed of the open listeners is closed, and so is what is opened from here on.
Balanced : Text → List Text → List Effect → Type 0
Balanced a listeners es = times a listeners + opened a es ≤ closed a es

deferred-Balanced : (a : Text) (listeners : List Text) → Balanced a listeners (deferred listeners)
unfolding Balanced
deferred-Balanced a listeners = omega (
  arith,
  closed-listeners a listeners (closes_connection ∷ []),
  opened-listeners a listeners (closes_connection ∷ []),
)

serve_listeners-Balanced :
    (a : Text) (listeners : List Text) → Balanced a listeners (serve_listeners listeners).0
unfolding Balanced
serve_listeners-Balanced a listeners = omega (
  arith,
  closed-listeners a listeners (closes_connection ∷ deferred listeners),
  opened-listeners a listeners (closes_connection ∷ deferred listeners),
  closed-listeners a listeners (closes_connection ∷ []),
  opened-listeners a listeners (closes_connection ∷ []),
)

Balanced-opened :
    (a service address : Text) (listeners : List Text) (es : List Effect)
    → Balanced a (listeners ++ address ∷ []) es
    → Balanced a listeners (opens address ∷ starts_accepting service ∷ es)
unfolding Balanced
Balanced-opened a service address listeners es h =
    omega (arith, h, times-append a address listeners)

open_listeners-Balanced :
    (a : Text) (listens : Text → Bool) (services : List (Text × Text)) (listeners : List Text)
    → Balanced a listeners (open_listeners listens services listeners).0
unfolding open_listeners
open_listeners-Balanced a listens [] listeners = serve_listeners-Balanced a listeners
open_listeners-Balanced a listens ((service, address) ∷ rest) listeners =
    elim (Bool-cases (listens address)) [
      | inr e ↦ rw e (deferred-Balanced a listeners)
      | inl e ↦ rw e (
          Balanced-opened a service address listeners
            (open_listeners listens rest (listeners ++ address ∷ [])).0
            (open_listeners-Balanced a listens rest (listeners ++ address ∷ [])))
    ]

-- Whatever addresses can be listened on and whatever the configuration, Run of the agent closes
-- each listener that it has opened before it returns.
pub run_closes :
    (listens : Text → Bool) (cfg : Config) (address : Text)
    → opened address (run listens cfg).0 ≤ closed address (run listens cfg).0
unfolding run Balanced
run_closes listens cfg address = elim (Result-cases (validate_config (apply_defaults cfg))) [
  | inl (u, e) ↦ rw e (
      let h = open_listeners-Balanced address listens (apply_defaults cfg).forward [] in
      omega arith)
  | inr (failure, e) ↦ rw e (omega arith)
]
