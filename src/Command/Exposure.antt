-- ===== src/Command/Exposure.antt =====
-- cmd/mule/main.go: `warnMetricsExposure`. `net.ParseIP` is a parameter: whether a text is an
-- address and, if it is, whether that is a loopback address.
mod Runs
use mule.Base.{
  Text, Bool, true, false, not, ◌&&◌, [], ◌∷◌, List, Option, none, some, if◌then◌else◌, codes,
  text_eq, Result, ok, err,
}
use mule.Config.Address.{AddressFault, split_host_port}
use mule.Config.Strings.{is_empty}
use mule.Logging.{Logger, Field, text, warn, log}

-- No address, or none that is a loopback address.
abbrev pub not_loopback : Option Bool → Bool
not_loopback none = true
not_loopback (some is_loopback) = not is_loopback

abbrev pub is_exposed : (Text → Option Bool) → Text → Bool
is_exposed loopback host = not (text_eq host (codes "localhost")) && not_loopback (loopback host)

abbrev pub exposed_host : (Text → Option Bool) → Result AddressFault (Text × Text) → Bool
exposed_host loopback (err e) = false
exposed_host loopback (ok (host, port)) = is_exposed loopback host

unfoldable pub exposes_metrics : (Text → Option Bool) → Text → Bool
unfolding split_host_port
exposes_metrics loopback addr =
    if is_empty addr then false else exposed_host loopback (split_host_port addr)

module _ {ℓ} {V : Type ℓ} (shown shown_as_string : V → Text)
    (encoded : List (Text × Field V) → Text) where
  abbrev pub exposure_fields : Text → List (Field V)
  exposure_fields addr =
      text (codes "listener_address")
      ∷ text addr
      ∷ text (codes "reason")
      ∷ text (codes "status_and_metrics_have_no_authentication")
      ∷ []

  -- What is written to the log.
  unfoldable pub warn_metrics_exposure : (Text → Option Bool) → Logger → Text → Text
  unfolding exposes_metrics log
  warn_metrics_exposure loopback logger addr =
      if exposes_metrics loopback addr
      then log shown shown_as_string encoded logger warn (codes "metrics_listener_exposed")
          (exposure_fields addr)
      else []
