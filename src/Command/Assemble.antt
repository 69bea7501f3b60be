-- ===== src/Command/Assemble.antt =====
-- cmd/mule/main.go: what `runServer` and `runAgent` make of their arguments before they start, the
-- parts that the two share.
pub mod ServerSide
pub mod AgentSide
mod Runs
use mule.Base.{◌*◌, Text, [], ◌∷◌, List, codes, ℤ, pos}
use mule.Config.Normalize.{Common}
use mule.Config.Limits.{second}
use mule.Config.Loading.{LoadError, Sources}
use mule.Auth.Secret.{FileSystem, Os, SecretError}
use mule.Command.Flags.{
  Kind, text_flag, duration_flag, FlagError, Values, Assignments, value_of, number_of,
}
use mule.Server.Loading as ServerLoading
use mule.Agent.Loading as AgentLoading
use mule.Command

pub data Failure : Type 0 where
  flags : FlagError → Failure
  mapping : Command.Error → Failure
  load : LoadError → Failure
  secret : SecretError → Failure
  duplicate_forward duplicate_reverse : Text → Failure

-- The world that the commands start in.
pub record World : Type 0 where
  pub values : Values
  pub server_sources : Sources ServerLoading.FileConfig
  pub agent_sources : Sources AgentLoading.FileConfig
  pub os : Os
  pub files : FileSystem

abbrev pub common_kinds : List (Text × Kind)
common_kinds =
    (codes "log-format", text_flag)
    ∷ (codes "log-level", text_flag)
    ∷ (codes "metrics-listen", text_flag)
    ∷ (codes "shutdown-timeout", duration_flag)
    ∷ []

abbrev pub duration_of : World → Text → ℤ → Assignments → ℤ
duration_of w name default set = number_of w.values.parse_duration name default set

abbrev pub int_of : World → Text → ℤ → Assignments → ℤ
int_of w name default set = number_of w.values.parse_int name default set

-- `addCommonFlags`.
abbrev pub common_of : World → Assignments → Common
common_of w set = record {
  secret_file = [];
  log_format = value_of (codes "log-format") (codes "text") set;
  log_level = value_of (codes "log-level") (codes "info") set;
  metrics_listen = value_of (codes "metrics-listen") [] set;
  shutdown_timeout = duration_of w (codes "shutdown-timeout") (pos (30 * second)) set;
}

abbrev pub true_texts : List Text
true_texts = codes "1" ∷ codes "t" ∷ codes "T" ∷ codes "TRUE" ∷ codes "true" ∷ codes "True" ∷ []
