-- ===== src/Auth/Keys.antt =====
-- internal/auth/derive.go and the certificates of internal/auth/tls.go: what is derived from a
-- secret. The primitives of golang.org/x/crypto/hkdf, crypto/ed25519 and crypto/x509 are
-- parameters.
use mule.Base.{
  not, text_eq, ℕ, ◌+◌, ◌*◌, ◌^◌, ◌%◌, ◌==◌, ◌&&◌, Text, Bool, true, false, [], ◌∷◌, ◌++◌, List,
  Option, none, some, if◌then◌else◌, codes, length, Result, ok, err, guard, ◌>>=◌, ◌>>◌,
}

pub data Role : Type 0 where
  forward exit : Role

-- The fields of x509.Certificate that differ between the templates.
pub record Template : Type 0 where
  pub serial : ℕ
  pub common_name : Text
  pub dns_names : List Text
  pub is_ca : Bool
  pub server_auth : Bool

-- With the public key that is certified and the seed of the key that signed.
pub record Certificate : Type 0 where
  pub template : Template
  pub key : Text
  pub issuer : Text

pub record Crypto : Type 0 where
  -- `io.ReadFull(hkdf.New(sha256.New, secret, salt, info), out)` for so many bytes.
  pub hkdf : Text → Text → Text → ℕ → Option Text
  -- `ed25519.NewKeyFromSeed(seed).Public()`.
  pub public_key : Text → Text
  -- Whether `x509.CreateCertificate` and the parsing of its result succeed.
  pub creates : Template → Text → Text → Bool

pub data Error : Type 0 where
  short_read no_certificate id_required no_client : Error
  same_identity : Text → Text → Error

abbrev pub hkdf_salt : Text
hkdf_salt = codes "mule/v2/auth"

abbrev pub exit_server_name : Text
exit_server_name = codes "mule-exit"

abbrev pub probe_server_name : Text
probe_server_name = codes "mule-probe"

abbrev pub role_name : Role → Text
role_name forward = codes "forward"
role_name exit = codes "exit"

-- The default of the switch is no `Role` here.
abbrev pub role_identity_label : Role → Text
role_identity_label forward = codes "mule/v2/forward identity"
role_identity_label exit = codes "mule/v2/exit identity"

abbrev pub all_zero : Text → Bool
all_zero [] = true
all_zero (v ∷ b) = v == 0 && all_zero b

-- `b[0] &= 0x7f`.
abbrev pub clear_sign : Text → Text
clear_sign [] = []
clear_sign (v ∷ b) = (v % 128) ∷ b

-- `b[len(b)-1] = 1`.
abbrev pub set_last : Text → Text
set_last [] = []
set_last (v ∷ []) = 1 ∷ []
set_last (v ∷ w ∷ b) = v ∷ set_last (w ∷ b)

-- `new(big.Int).SetBytes(b)`: big end first.
abbrev pub set_bytes : Text → ℕ
set_bytes [] = 0
set_bytes (v ∷ b) = v * 256 ^ length b + set_bytes b

abbrev pub nonzero_serial : Text → ℕ
nonzero_serial b = set_bytes (if all_zero b then set_last b else b)

abbrev pub wildcard : Text → Text
wildcard name = codes "*." ++ name

abbrev pub dns_names_of : Role → List Text
dns_names_of exit =
    exit_server_name
    ∷ wildcard exit_server_name
    ∷ probe_server_name
    ∷ wildcard probe_server_name
    ∷ []
dns_names_of forward = (codes "mule-" ++ role_name forward) ∷ []

abbrev pub is_exit : Role → Bool
is_exit exit = true
is_exit forward = false

module _ (crypto : Crypto) where
  abbrev pub or_short {ℓ} : {A : Type ℓ} → Option A → Result Error A
  or_short none = err short_read
  or_short (some out) = ok out

  abbrev pub derive_bytes : Text → Text → ℕ → Result Error Text
  derive_bytes secret label n = or_short (crypto.hkdf secret hkdf_salt label n)

  -- The seed, which stands for the private key.
  abbrev pub derive_private_key : Text → Text → Result Error Text
  derive_private_key secret label = derive_bytes secret label 32

  abbrev pub role_public_key : Text → Role → Result Error Text
  role_public_key secret role = do
    seed ← derive_private_key secret (role_identity_label role)
    ok (crypto.public_key seed)

  abbrev pub identities_differ : Text → Result Error Bool
  identities_differ secret = do
    forward_key ← role_public_key secret forward
    exit_key ← role_public_key secret exit
    ok (not (text_eq forward_key exit_key))

  unfoldable pub serial_number : Text → Text → Result Error ℕ
  serial_number secret label = do
    b ← derive_bytes secret label 16
    ok (nonzero_serial (clear_sign b))

  abbrev pub create_certificate : Template → Text → Text → Result Error Certificate
  create_certificate template key issuer = do
    guard (crypto.creates template key issuer) no_certificate
    ok (record { template = template; key = key; issuer = issuer })

  -- With the seed of its key, which signs it.
  unfoldable pub ca_certificate : Text → Result Error (Certificate × Text)
  unfolding serial_number
  ca_certificate secret = do
    seed ← derive_private_key secret (codes "mule/v2/ca identity")
    serial ← serial_number secret (codes "mule/v2/ca serial")
    cert ←
        create_certificate
          (record {
            serial = serial;
            common_name = codes "mule v2 derived ca";
            dns_names = [];
            is_ca = true;
            server_auth = false;
          })
          (crypto.public_key seed) seed
    ok (cert, seed)

  unfoldable pub role_certificate : Text → Role → Text → Result Error Certificate
  unfolding serial_number
  role_certificate secret role ca_key = do
    seed ← derive_private_key secret (role_identity_label role)
    serial ←
        serial_number secret (codes "mule/v2/" ++ role_name role ++ codes " certificate serial")
    create_certificate
        (record {
          serial = serial;
          common_name = codes "mule-" ++ role_name role;
          dns_names = dns_names_of role;
          is_ca = false;
          server_auth = is_exit role;
        })
        (crypto.public_key seed) ca_key
