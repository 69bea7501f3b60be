-- ===== src/Config/Address/Ports.antt =====
-- The addresses that pass `validateHostPort`.
use mule.Base.{
  ℕ, ◌≤◌, ◌≡◌, refl, sym, ap, ◌∙◌, ◌≢◌, ◌↔◌, ◌⊎◌, inl, inr, Text, Bool, true, false, ◌&&◌, not, [],
  ◌∷◌, Option, none, some, arith, Result, Result-cases, ok, err, pos, negsuc, ℤ, guard, ◌>>◌,
}
use mule.Config.Strings.{atoi, is_empty}
use mule.Config.Address.{
  split_host_port, validate_host_port, port_outside, host_required, port_out_of_range,
  HostPortError, AddressFault,
}
use mule.Config.Address.Forms.{IsPlain, IsBracketed, split_host_port_iff}

pub record Accepted (addr : Text) (allow_empty_host : Bool) : Type 0 where
  pub host : Text
  pub port : Text
  pub number : ℕ
  pub form : IsPlain addr host port ⊎ IsBracketed addr host port
  pub hosted : (allow_empty_host ≡ true) ⊎ (host ≢ [])
  pub decimal : atoi port ≡ some (pos number)
  pub lowest : 1 ≤ number
  pub highest : number ≤ 65535

inside : (n : ℤ) → port_outside (some n) ≡ false → (k : ℕ) × (n ≡ pos k) × (1 ≤ k) × (k ≤ 65535)
inside (pos k) h = (k, refl, ground arith, ground arith)
inside (negsuc k) h = ground arith

check_port :
    (o : Option ℤ) → port_outside o ≡ false → (k : ℕ) × (o ≡ some (pos k)) × (1 ≤ k) × (k ≤ 65535)
check_port none h = cc
check_port (some n) h = let (k, e, lo, hi) = inside n h in (k, ap some e, lo, hi)

checks : Text → Text → Bool → Result HostPortError (Unit {0})
checks host port allow = do
  guard (not (is_empty host && not allow)) host_required
  guard (not (port_outside (atoi port))) port_out_of_range
  ok tt

checks_iff :
    (host port : Text) (allow : Bool)
    → (checks host port allow ≡ ok tt)
      ↔ ((is_empty host && not allow ≡ false) × (port_outside (atoi port) ≡ false))
unfolding checks
checks_iff host port allow = (λ e. ground arith, λ e. ground arith)

hosted_of :
    (host : Text) (allow : Bool)
    → (is_empty host && not allow) ≡ false
    → (allow ≡ true) ⊎ (host ≢ [])
hosted_of [] allow h = inl (ground arith)
hosted_of (c ∷ host) allow h = inr (λ e. cc)

not_missing :
    (host : Text) (allow : Bool)
    → (allow ≡ true) ⊎ (host ≢ [])
    → (is_empty host && not allow) ≡ false
not_missing [] allow (inl e) = ground arith
not_missing [] allow (inr e) = absurd (e refl)
not_missing (c ∷ host) allow h = refl

validate_checks :
    (addr host port : Text) (allow : Bool)
    → split_host_port addr ≡ ok (host, port)
    → validate_host_port addr allow ≡ checks host port allow
unfolding validate_host_port checks
validate_checks addr host port allow q = rw q

outside_range : (k : ℕ) → 1 ≤ k → k ≤ 65535 → port_outside (some (pos k)) ≡ false
outside_range k lo hi = ground arith

refused :
    {A : Type 0} (addr : Text) (allow : Bool) {fault : AddressFault}
    → split_host_port addr ≡ err fault
    → validate_host_port addr allow ≡ ok tt
    → A
unfolding validate_host_port
refused addr allow q e = ground arith

accepts : (addr : Text) (allow : Bool) → validate_host_port addr allow ≡ ok tt → Accepted addr allow
accepts addr allow e = elim (Result-cases (split_host_port addr)) [
  | inr (fault, q) ↦ refused addr allow q e
  | inl ((host, port), q) ↦
      let (hosted, in_range) =
        (checks_iff host port allow).0 (sym (validate_checks addr host port allow q) ∙ e) in
      let (k, decimal, lo, hi) = check_port (atoi port) in_range in
      record {
        host = host;
        port = port;
        number = k;
        form = (split_host_port_iff addr host port).0 q;
        hosted = hosted_of host allow hosted;
        decimal = decimal;
        lowest = lo;
        highest = hi;
      }
]

-- `validateHostPort` accepts exactly the addresses of the two forms whose port is a decimal number
-- from 1 to 65535, with a host unless it may be empty.
pub validate_host_port_iff :
    (addr : Text) (allow : Bool) → (validate_host_port addr allow ≡ ok tt) ↔ Accepted addr allow
validate_host_port_iff addr allow = (
  accepts addr allow,
  λ a.
      validate_checks addr a.host a.port allow ((split_host_port_iff addr a.host a.port).1 a.form)
      ∙ (checks_iff a.host a.port allow).1 (
        not_missing a.host allow a.hosted,
        rw a.decimal (outside_range a.number a.lowest a.highest),
      ),
)
