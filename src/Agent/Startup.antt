-- ===== src/Agent/Startup.antt =====
-- internal/agent/agent.go: `Run`, from its checks to its return, with the listeners that it opens
-- and closes. Whether an address can be listened on is a parameter.
pub mod Closing
mod Runs
use mule.Base.{
  Text, Bool, true, false, [], ◌∷◌, ◌++◌, List, Option, none, some, if◌then◌else◌, Result, ok, err,
}
use mule.Agent.Settings.{Config, Error, apply_defaults, validate_config}

-- What `Run` does, in order: the calls on listeners, the start of `maintainConnection`, the wait
-- for the context, and `closeConn`.
pub data Effect : Type 0 where
  opens closes : (address : Text) → Effect
  starts_accepting : (service : Text) → Effect
  maintains waits closes_connection : Effect

pub data Returned : Type 0 where
  stopped : Returned
  invalid : Error → Returned
  not_listening : (address : Text) → Returned

-- The loop over the listeners that are open, the first first.
abbrev pub close_listeners : List Text → List Effect
close_listeners [] = []
close_listeners (address ∷ rest) = closes address ∷ close_listeners rest

-- The deferred function, on whatever has been opened.
abbrev pub deferred : List Text → List Effect
deferred listeners = close_listeners listeners ++ closes_connection ∷ []

-- From the last listener on.
abbrev pub serve_listeners : List Text → List Effect × Returned
serve_listeners listeners = (
  maintains ∷ waits ∷ (close_listeners listeners ++ closes_connection ∷ deferred listeners),
  stopped,
)

abbrev pub after_effects : List Effect → List Effect × Returned → List Effect × Returned
after_effects done (effects, returned) = (done ++ effects, returned)

-- The loop over the forward services, in the order in which the range meets them, with the
-- listeners that are open.
unfoldable pub open_listeners :
    (Text → Bool) → List (Text × Text) → List Text → List Effect × Returned
open_listeners listens [] listeners = serve_listeners listeners
open_listeners listens ((service, address) ∷ rest) listeners =
    let others = open_listeners listens rest (listeners ++ address ∷ []) in
    if listens address
    then after_effects (opens address ∷ starts_accepting service ∷ []) others
    else (deferred listeners, not_listening address)

abbrev pub run_valid : (Text → Bool) → Config → Result Error (Unit {0}) → List Effect × Returned
run_valid listens cfg (err e) = ([], invalid e)
run_valid listens cfg (ok u) = open_listeners listens cfg.forward []

unfoldable pub run : (Text → Bool) → Config → List Effect × Returned
unfolding apply_defaults validate_config open_listeners
run listens cfg = run_valid listens (apply_defaults cfg) (validate_config (apply_defaults cfg))
