-- ===== src/Auth/Secret.antt =====
-- internal/auth/secret.go: the shared secret, its text and its file. The file system is a map from
-- paths to files; what the operating system answers is a parameter.
pub mod Decoding
pub mod Loading
pub mod Files
mod Runs
use mule.Base.{
  ℕ, ◌≡◌, ◌%◌, ◌≤◌, Text, Bool, true, false, not, ◌&&◌, ◌||◌, ◌==◌, leb, [], ◌∷◌, ◌++◌, List,
  Option, none, some, take, if◌then◌else◌, length, Result, ok, err, guard, ◌>>=◌, ◌>>◌, lookup,
  insert,
}
use mule.Config.Strings.{is_empty}
use mule.Auth.Encoding.{base64_decode, base64_encode, hex_decode, trim_space}

abbrev pub min_secret_bytes : ℕ
min_secret_bytes = 32

pub data SecretError : Type 0 where
  no_entropy not_created not_written not_closed : SecretError
  not_opened not_examined not_regular not_read : SecretError
  -- With the permissions the file has.
  too_open : ℕ → SecretError
  too_short bad_encoding : SecretError

abbrev pub validate_secret : Text → Result SecretError Text
validate_secret secret = if leb min_secret_bytes (length secret) then ok secret else err too_short

-- The first of the encodings that reads the text; the length is looked at only then.
abbrev pub first_encoding : Option Text → Option Text → Option Text → Result SecretError Text
first_encoding (some out) padded raw = validate_secret out
first_encoding none (some out) raw = validate_secret out
first_encoding none none (some out) = validate_secret out
first_encoding none none none = err bad_encoding

unfoldable pub decode_secret : Text → Result SecretError Text
decode_secret s =
    let s = trim_space s in
    if is_empty s
    then err too_short
    else first_encoding (hex_decode s) (base64_decode true s) (base64_decode false s)

pub record File : Type 0 where
  pub is_regular : Bool
  pub mode : ℕ
  pub content : Text

abbrev pub FileSystem : Type 0
FileSystem = List (Text × File)

pub record Os : Type 0 where
  -- `runtime.GOOS == "windows"`.
  pub is_windows : Bool
  -- `rand.Read` on a slice of so many bytes.
  pub random : ℕ → Option Text
  -- Whether the directory lets a file be created, and the mode that the umask leaves of one asked for.
  pub may_create : Text → Bool
  pub umasked : ℕ → ℕ
  -- How many bytes are written before an error; `none` is no error.
  pub short_write : Text → Option ℕ
  pub closes : Bool
  -- Whether `Open`, `Stat` and `ReadAll` succeed on a file that is there.
  pub may_open : File → Bool
  pub may_examine : File → Bool
  pub may_read : File → Bool

abbrev pub found {ℓ} : {A : Type ℓ} → Option A → Result SecretError A
found none = err not_opened
found (some file) = ok file

abbrev pub shared_bits : ℕ → ℕ
shared_bits mode = mode % 64

abbrev pub check_file : Os → File → Result SecretError (Unit {0})
check_file os file =
    guard (os.may_examine file) not_examined
    >> guard (file.is_regular) not_regular
    >> guard (os.is_windows || shared_bits (file.mode) == 0) (too_open (file.mode % 512))
    >> guard (os.may_read file) not_read

unfoldable pub load_secret_file : Os → Text → FileSystem → Result SecretError Text
unfolding decode_secret
load_secret_file os path files = found (lookup path files) >>= λ file.
    guard (os.may_open file) not_opened >> check_file os file >> decode_secret (file.content)

-- What a write leaves in a new file, and whether `WriteString` and then `Close` succeed.
abbrev pub write_file :
    Os → Text → FileSystem → Text → Option ℕ → FileSystem × Result SecretError (Unit {0})
write_file os path files text (some n) = (
  insert path (record { is_regular = true; mode = os.umasked 384; content = take n text }) files,
  err not_written,
)
write_file os path files text none = (
  insert path (record { is_regular = true; mode = os.umasked 384; content = text }) files,
  guard (os.closes) not_closed,
)

-- `O_CREATE|O_EXCL` refuses a path that is there.
abbrev pub create_file :
    Os → Text → Text → FileSystem → Option File → FileSystem × Result SecretError (Unit {0})
create_file os path text files (some there) = (files, err not_created)
create_file os path text files none =
    if os.may_create path
    then write_file os path files text (os.short_write text)
    else (files, err not_created)

abbrev pub generate_with :
    Os → Text → FileSystem → Option Text → FileSystem × Result SecretError (Unit {0})
generate_with os path files none = (files, err no_entropy)
generate_with os path files (some secret) =
    create_file os path (base64_encode secret ++ 10 ∷ []) files (lookup path files)

unfoldable pub generate_secret_file :
    Os → Text → FileSystem → FileSystem × Result SecretError (Unit {0})
generate_secret_file os path files = generate_with os path files (os.random min_secret_bytes)
