-- ===== src/Command/Dispatch.antt =====
-- cmd/mule/main.go: `run`, `runHelp` and `runWithMetrics`.
mod Runs
use mule.Base.{Text, Bool, [], ◌∷◌, List, Option, none, some, if◌then◌else◌, codes, text_eq, Result}

pub data Subcommand : Type 0 where
  server agent probe keygen check check_config : Subcommand

-- What the arguments ask for.
pub data Invocation : Type 0 where
  missing_command usage_of_version usage_of_help : Invocation
  unknown_command : Text → Invocation
  prints_usage prints_version prints_version_help : Invocation
  runs : Subcommand → (args : List Text) → Invocation

abbrev pub subcommand : Text → Option Subcommand
subcommand name =
    if text_eq name (codes "server")
    then some server
    else if text_eq name (codes "agent")
    then some agent
    else if text_eq name (codes "probe")
    then some probe
    else if text_eq name (codes "keygen")
    then some keygen
    else if text_eq name (codes "check")
    then some check
    else if text_eq name (codes "check-config")
    then some check_config
    else none

abbrev pub help_for : Text → Option Subcommand → Invocation
help_for name (some command) = runs command (codes "--help" ∷ [])
help_for name none =
    if text_eq name (codes "version") then prints_version_help else unknown_command name

unfoldable pub run_help : List Text → Invocation
run_help [] = prints_usage
run_help (name ∷ []) = help_for name (subcommand name)
run_help (name ∷ other ∷ args) = usage_of_help

abbrev pub version_for : List Text → Invocation
version_for [] = prints_version
version_for (arg ∷ args) = usage_of_version

abbrev pub run_named : Text → List Text → Option Subcommand → Invocation
run_named name args (some command) = runs command args
run_named name args none =
    if text_eq name (codes "help")
    then run_help args
    else if text_eq name (codes "version")
    then version_for args
    else unknown_command name

unfoldable pub run : List Text → Invocation
unfolding run_help
run [] = missing_command
run (name ∷ args) =
    if text_eq name (codes "-h")
    then prints_usage
    else if text_eq name (codes "--help")
    then prints_usage
    else run_named name args (subcommand name)

-- What `runWithMetrics` waits for: the returns of the server or agent and of the listener of the
-- metrics, a signal, and the timer of the shutdown.
pub data Arrival {ℓ} (E : Type ℓ) : Type ℓ where
  main_returns metrics_return : Result E (Unit {0}) → Arrival E
  signalled timer_fires : Arrival E

pub data Ended {ℓ} (E : Type ℓ) : Type ℓ where
  returned : Result E (Unit {0}) → Ended E
  timed_out : Ended E

-- After the signal, with the context cancelled and the timer running.
unfoldable pub await_shutdown {ℓ} : {E : Type ℓ} → Bool → List (Arrival E) → Option (Ended E)
await_shutdown has_metrics [] = none
await_shutdown has_metrics (main_returns r ∷ rest) = some (returned r)
await_shutdown has_metrics (metrics_return r ∷ rest) =
    let later = await_shutdown has_metrics rest in if has_metrics then some (returned r) else later
await_shutdown has_metrics (signalled ∷ rest) = await_shutdown has_metrics rest
await_shutdown has_metrics (timer_fires ∷ rest) = some timed_out

-- The metrics are served only where their address is given; `none` is still waiting.
unfoldable pub run_with_metrics {ℓ} : {E : Type ℓ} → Bool → List (Arrival E) → Option (Ended E)
unfolding await_shutdown
run_with_metrics has_metrics [] = none
run_with_metrics has_metrics (main_returns r ∷ rest) = some (returned r)
run_with_metrics has_metrics (metrics_return r ∷ rest) =
    let later = run_with_metrics has_metrics rest in
    if has_metrics then some (returned r) else later
run_with_metrics has_metrics (signalled ∷ rest) = await_shutdown has_metrics rest
run_with_metrics has_metrics (timer_fires ∷ rest) = run_with_metrics has_metrics rest
