-- ===== src/Command/Dispatch/Runs.antt =====
-- Concrete command lines and orders of events.
use mule.Base.{◌≡◌, refl, Text, true, false, [], ◌∷◌, some, codes, ok}
use mule.Command.Dispatch.{
  agent, check_config, runs, unknown_command, run, run_help, main_returns, metrics_return,
  signalled, timer_fires, returned, timed_out, await_shutdown, run_with_metrics,
}

help_is_option :
    run (codes "help" ∷ codes "check-config" ∷ []) ≡ runs check_config (codes "--help" ∷ [])
unfolding run run_help
help_is_option = refl

agent_runs : run (codes "agent" ∷ codes "--config=a" ∷ []) ≡ runs agent (codes "--config=a" ∷ [])
unfolding run
agent_runs = refl

no_command : run (codes "tunnel" ∷ []) ≡ unknown_command (codes "tunnel")
unfolding run
no_command = refl

-- The timer runs only after a signal.
late_return :
    run_with_metrics {E = Text} true
      (timer_fires ∷ signalled ∷ main_returns (ok tt) ∷ timer_fires ∷ [])
    ≡ some (returned (ok tt))
unfolding run_with_metrics await_shutdown
late_return = refl

no_return :
    run_with_metrics {E = Text} false (signalled ∷ metrics_return (ok tt) ∷ timer_fires ∷ [])
    ≡ some timed_out
unfolding run_with_metrics await_shutdown
no_return = refl
