-- ===== src/Auth/Secret/Runs.antt =====
-- Concrete secrets and files, and the theorems at them.
use mule.Base.{
  ℕ, zero, suc, ◌≡◌, ◌≤◌, ◌%◌, refl, Text, true, false, [], ◌∷◌, ◌++◌, none, some, ok, err, All,
  IsByte, length, codes, lookup, arith, ap, subst,
}
use mule.Auth.Encoding.{
  base64_decode, base64_encode, hex_decode, hex_encode, trim_left, trim_right, trim_space,
}
use mule.Auth.Secret.{
  decode_secret, File, FileSystem, Os, SecretError, load_secret_file, generate_secret_file,
}
use mule.Auth.Secret.Decoding.{decode_secret_hex}
use mule.Auth.Secret.Loading.{IsPrivate, load_secret_file-IsPrivate}
use mule.Auth.Secret.Files.{Fills, Reads, load-generate}

-- So many bytes, counted down.
abbrev counted_down : ℕ → Text
counted_down zero = []
counted_down (suc n) = n % 256 ∷ counted_down n

counted_down-bytes : (n : ℕ) → All IsByte (counted_down n)
counted_down-bytes zero = tt
counted_down-bytes (suc n) = (omega arith, counted_down-bytes n)

counted_down-length : (n : ℕ) → length (counted_down n) ≡ n
counted_down-length zero = refl
counted_down-length (suc n) = ap suc (counted_down-length n)

abbrev os : Os
os = record {
  is_windows = false;
  random = λ n. some (counted_down n);
  may_create = λ path. true;
  umasked = λ mode. mode;
  short_write = λ text. none;
  closes = true;
  may_open = λ file. true;
  may_examine = λ file. true;
  may_read = λ file. true;
}

abbrev key_file : Text
key_file = codes "key"

abbrev files : FileSystem
files = (codes "keep", record { is_regular = true; mode = 384; content = codes "keep" }) ∷ []

os-Fills : Fills os
os-Fills n s e =
    subst (λ (s : Text). All IsByte s × (length s ≡ n)) (drawn e)
      (counted_down-bytes n, counted_down-length n)
  where
    drawn : some (counted_down n) ≡ some s → counted_down n ≡ s
    drawn h = cc

os-Reads : Reads os
os-Reads = (refl, λ file e. (refl, refl, refl))

generates : (generate_secret_file os key_file files).1 ≡ ok tt
unfolding generate_secret_file lookup
generates = refl

load-generate_example :
    (secret : Text) × (some (counted_down 32) ≡ some secret)
    × (load_secret_file os key_file (generate_secret_file os key_file files).0 ≡ ok secret)
load-generate_example = load-generate os key_file files os-Fills os-Reads generates

decode_secret_hex_example :
    decode_secret (hex_encode (counted_down 40) ++ 10 ∷ []) ≡ ok (counted_down 40)
decode_secret_hex_example =
    decode_secret_hex (counted_down 40) (counted_down-bytes 40) (omega arith)

abbrev hex_files : FileSystem
hex_files =
    (key_file, record { is_regular = true; mode = 256; content = hex_encode (counted_down 32) })
    ∷ []

loads : load_secret_file os key_file hex_files ≡ ok (counted_down 32)
unfolding load_secret_file decode_secret lookup hex_decode trim_space trim_left trim_right
loads = refl

load_secret_file-IsPrivate_example :
    (file : File) × (lookup key_file hex_files ≡ some file) × IsPrivate os file × (32 ≤ 32)
load_secret_file-IsPrivate_example =
    load_secret_file-IsPrivate os key_file hex_files (counted_down 32) loads

decode_empty : decode_secret [] ≡ err SecretError.too_short
unfolding decode_secret trim_space trim_left trim_right
decode_empty = refl

decode_short : decode_secret (base64_encode (codes "short")) ≡ err SecretError.too_short
unfolding decode_secret trim_space trim_left trim_right hex_decode base64_decode
decode_short = refl

decode_invalid : decode_secret (codes "not valid secret material") ≡ err SecretError.bad_encoding
unfolding decode_secret trim_space trim_left trim_right hex_decode base64_decode
decode_invalid = refl

open_files :
    load_secret_file os key_file (
      (
        key_file,
        record { is_regular = true; mode = 420; content = base64_encode (counted_down 32) },
      )
      ∷ [])
    ≡ err (SecretError.too_open 420)
unfolding load_secret_file lookup
open_files = refl
