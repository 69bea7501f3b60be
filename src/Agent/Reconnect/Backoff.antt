-- ===== src/Agent/Reconnect/Backoff.antt =====
-- The delays of an agent that the server does not let in: they double up to the limit.
use mule.Base.{
  ℕ, zero, suc, ◌*◌, ◌^◌, ◌≡◌, refl, ap, ◌∙◌, min, true, [], ◌∷◌, List, leb, if◌then◌else◌, pos,
  arith,
}
use native.Mathlib.Numerals.{unary_clauses}
use mule.Config.Limits.{second}
use mule.Agent.Settings.{Config}
use mule.Agent.Reconnect.{
  next_reconnect_delay, Agent, Turn, refused, Report, waiting, maintain_connection,
}

-- One minute, unless the configured delay is longer.
abbrev pub limit : ℕ → ℕ
limit base = if leb base (60 * second) then 60 * second else base

abbrev pub nth_delay : ℕ → ℕ → ℕ
nth_delay base n = min (base * 2 ^ n) (limit base)

next_reconnect_delay-nth :
    (base n : ℕ)
    → next_reconnect_delay (pos (nth_delay base n)) (pos base) ≡ pos (nth_delay base (suc n))
unfolding next_reconnect_delay
next_reconnect_delay-nth base n =
    let doubled : base * 2 ^ suc n ≡ base * 2 ^ n * 2 = simp unary_clauses (omega arith) in
    ground arith

abbrev pub refusals : ℕ → List Turn
refusals zero = []
refusals (suc k) = refused true ∷ refusals k

-- The waits from the n-th on.
abbrev pub waits : ℕ → Agent → ℕ → ℕ → List Report
waits base a n zero = []
waits base a n (suc k) = waiting (pos (nth_delay base n)) a ∷ waits base a (suc n) k

pub backoff_from :
    (cfg : Config) (base : ℕ) (a : Agent) (n k : ℕ)
    → cfg.reconnect_delay ≡ pos base
    → maintain_connection cfg (pos (nth_delay base n)) a (refusals k) ≡ waits base a n k
unfolding maintain_connection
backoff_from cfg base a n zero e = refl
backoff_from cfg base a n (suc k) e =
    rw (e, next_reconnect_delay-nth base n, backoff_from cfg base a (suc n) k e)

-- While the server cannot be reached, the loop waits base, 2 base, 4 base and so on, each at most
-- one minute, or base where that is longer.
pub backoff_doubles :
    (cfg : Config) (base : ℕ) (a : Agent) (k : ℕ)
    → cfg.reconnect_delay ≡ pos base
    → maintain_connection cfg cfg.reconnect_delay a (refusals k) ≡ waits base a 0 k
backoff_doubles cfg base a k e =
    let start : cfg.reconnect_delay ≡ pos (nth_delay base 0) = ground arith in
    ap (λ delay. maintain_connection cfg delay a (refusals k)) start ∙ backoff_from cfg base a 0 k e
