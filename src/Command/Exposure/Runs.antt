-- ===== src/Command/Exposure/Runs.antt =====
-- Listening addresses of the metrics.
use mule.Base.{
  ◌≡◌, refl, Text, Bool, true, false, [], Option, some, none, codes, text_eq, if◌then◌else◌,
}
use mule.Config.Strings.{contains, cut}
use mule.Config.Address.{split_host_port, split_bracketed, split_plain}
use mule.Command.Exposure.{exposes_metrics}

abbrev loopback : Text → Option Bool
loopback host =
    if text_eq host (codes "127.0.0.1")
    then some true
    else if text_eq host (codes "0.0.0.0")
    then some false
    else none

abbrev exposes : Text → Bool
unfolding exposes_metrics
exposes addr = exposes_metrics loopback addr

not_listening : exposes [] ≡ false
unfolding exposes exposes_metrics
not_listening = refl

all_addresses : exposes (codes "0.0.0.0:9090") ≡ true
unfolding exposes exposes_metrics split_host_port split_bracketed split_plain contains cut
all_addresses = refl

any_host : exposes (codes ":9090") ≡ true
unfolding exposes exposes_metrics split_host_port split_bracketed split_plain contains cut
any_host = refl

loopback_only : exposes (codes "127.0.0.1:9090") ≡ false
unfolding exposes exposes_metrics split_host_port split_bracketed split_plain contains cut
loopback_only = refl

by_name : exposes (codes "localhost:9090") ≡ false
unfolding exposes exposes_metrics split_host_port split_bracketed split_plain contains cut
by_name = refl
