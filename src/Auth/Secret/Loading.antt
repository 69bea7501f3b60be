-- ===== src/Auth/Secret/Loading.antt =====
-- The file that a secret is read from: `LoadSecretFile`.
use mule.Base.{
  ◌%◌, ◌≡◌, ◌≤◌, ◌⊎◌, ap, Text, true, Option, none, some, ok, guard, ◌>>◌, length, lookup, on_ok,
  ok-injective, arith,
}
use mule.Auth.Secret.{SecretError, File, FileSystem, Os, found, check_file, load_secret_file}
use mule.Auth.Secret.Decoding.{decoded}

-- A file that a secret may be read from: a regular one, without permissions for its group and for
-- others, which are the last six bits, but on Windows.
abbrev pub IsPrivate : Os → File → Type 0
IsPrivate os file = (file.is_regular ≡ true) × ((os.is_windows ≡ true) ⊎ (file.mode % 64 ≡ 0))

checked : (os : Os) (file : File) (u : Unit {0}) → check_file os file ≡ ok u → IsPrivate os file
checked os file u h = ground arith

found_there : (o : Option File) (file : File) → found o ≡ ok file → o ≡ some file
found_there none file h = absurd (cc)
found_there (some f) file h = ap some (ok-injective h)

-- A secret is only loaded from a regular file that neither group nor others may use, unless on
-- Windows, and has 32 bytes at least.
pub load_secret_file-IsPrivate :
    (os : Os) (path : Text) (files : FileSystem) (secret : Text)
    → load_secret_file os path files ≡ ok secret
    → (file : File) × (lookup path files ≡ some file) × IsPrivate os file × (32 ≤ length secret)
unfolding load_secret_file
load_secret_file-IsPrivate os path files secret h =
    on_ok (found (lookup path files)) _ h λ file there h1.
      on_ok (guard (os.may_open file) SecretError.not_opened >> check_file os file) _ h1
        λ u fits h2. on_ok (guard (os.may_open file) SecretError.not_opened) _ fits λ _ opened h3. (
          file,
          found_there (lookup path files) file there,
          checked os file u h3,
          decoded file.content secret h2,
        )
