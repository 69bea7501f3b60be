-- ===== src/Config/Address.antt =====
-- `net.SplitHostPort` and `validateHostPort`.
pub mod Forms
pub mod Ports
use mule.Base.{
  Text, Bool, true, ◌&&◌, ◌||◌, not, [], ◌∷◌, ◌++◌, Option, none, some, ◌==◌, if◌then◌else◌, ℤ, pos,
  ltb_ℤ, Result, ok, err, ◌>>=◌, ◌>>◌, guard,
}
use mule.Config.Strings.{contains, cut, is_empty, atoi}

-- The reasons of a `net.AddrError`.
pub data AddressFault : Type 0 where
  missing_port too_many_colons missing_bracket unexpected_open unexpected_close : AddressFault

-- An address in brackets, behind its `[`: the text up to the first `]`, and what follows.
unfoldable pub split_bracketed : Text → Text → Result AddressFault (Text × Text)
split_bracketed host [] = err missing_port
split_bracketed host (c ∷ port) =
    if not (c == b':')
    then err missing_port
    else if contains b':' port
    then err too_many_colons
    else if contains b'[' (host ++ b']' ∷ c ∷ port)
    then err unexpected_open
    else if contains b']' port
    then err unexpected_close
    else ok (host, port)

-- An address without brackets, cut at its first colon.
unfoldable pub split_plain : Text → Text → Result AddressFault (Text × Text)
split_plain host port =
    if contains b':' port
    then err too_many_colons
    else if contains b'[' (host ++ b':' ∷ port)
    then err unexpected_open
    else if contains b']' (host ++ b':' ∷ port)
    then err unexpected_close
    else ok (host, port)

abbrev pub or_fault :
    AddressFault
    → (Text → Text → Result AddressFault (Text × Text))
    → Option (Text × Text)
    → Result AddressFault (Text × Text)
or_fault fault k none = err fault
or_fault fault k (some (host, port)) = k host port

-- `net.SplitHostPort`.
unfoldable pub split_host_port : Text → Result AddressFault (Text × Text)
split_host_port [] = err missing_port
split_host_port (c ∷ s) =
    if not (contains b':' (c ∷ s))
    then err missing_port
    else if c == b'['
    then or_fault missing_bracket split_bracketed (cut b']' s)
    else or_fault missing_port split_plain (cut b':' (c ∷ s))

pub data HostPortError : Type 0 where
  not_an_address : AddressFault → HostPortError
  host_required port_out_of_range : HostPortError

abbrev pub with_fault : Result AddressFault (Text × Text) → Result HostPortError (Text × Text)
with_fault (ok parts) = ok parts
with_fault (err fault) = err (not_an_address fault)

-- `err != nil || port < 1 || port > 65535`.
abbrev pub port_outside : Option ℤ → Bool
port_outside none = true
port_outside (some port) = ltb_ℤ port (pos 1) || ltb_ℤ (pos 65535) port

unfoldable pub validate_host_port : Text → Bool → Result HostPortError (Unit {0})
validate_host_port addr allow_empty_host = do
  (host, port_text) ← with_fault (split_host_port addr)
  guard (not (is_empty host && not allow_empty_host)) host_required
  guard (not (port_outside (atoi port_text))) port_out_of_range
  ok tt
