-- ===== src/Auth/Secret/Files.antt =====
-- The file that is generated: `GenerateSecretFile`, with what it leaves of the other files.
use mule.Base.{
  ℕ, ◌≡◌, inl, inr, refl, Text, true, [], ◌∷◌, ◌++◌, Option, none, some, ok, guard, ◌>>◌, All,
  IsByte, length, lookup, insert, lookup-insert, text_eq, text_eq_refl, text_eq_sound, Bool-cases,
  arith,
}
use mule.Auth.Encoding.{base64_encode}
use mule.Auth.Secret.{
  SecretError, File, FileSystem, Os, shared_bits, check_file, load_secret_file, write_file,
  create_file, generate_with, generate_secret_file,
}
use mule.Auth.Secret.Decoding.{decode_secret_base64}

insert_keeps :
    (path other : Text) (new file : File) (files : FileSystem)
    → lookup path files ≡ none
    → lookup other files ≡ some file
    → lookup other (insert path new files) ≡ some file
insert_keeps path other new file files fresh h = elim (Bool-cases (text_eq path other)) [
  | inl e ↦ let same = text_eq_sound path other e in absurd (cc)
  | inr e ↦ rw (lookup-insert path other new files, e) h
]

write_file_keeps :
    (os : Os) (path text other : Text) (files : FileSystem) (stop : Option ℕ) (file : File)
    → lookup path files ≡ none
    → lookup other files ≡ some file
    → lookup other (write_file os path files text stop).0 ≡ some file
write_file_keeps os path text other files none file fresh h =
    insert_keeps path other _ file files fresh h
write_file_keeps os path text other files (some n) file fresh h =
    insert_keeps path other _ file files fresh h

create_file_keeps :
    (os : Os) (path text other : Text) (files : FileSystem) (there : Option File) (file : File)
    → lookup path files ≡ there
    → lookup other files ≡ some file
    → lookup other (create_file os path text files there).0 ≡ some file
create_file_keeps os path text other files (some there) file e h = h
create_file_keeps os path text other files none file e h = elim (Bool-cases (os.may_create path)) [
  | inl may ↦ rw may (write_file_keeps os path text other files (os.short_write text) file e h)
  | inr bars ↦ rw bars h
]

generate_with_keeps :
    (os : Os) (path other : Text) (files : FileSystem) (secret : Option Text) (file : File)
    → lookup other files ≡ some file
    → lookup other (generate_with os path files secret).0 ≡ some file
generate_with_keeps os path other files none file h = h
generate_with_keeps os path other files (some secret) file h =
    create_file_keeps os path _ other files (lookup path files) file refl h

pub generate_secret_file_keeps :
    (os : Os) (path other : Text) (files : FileSystem) (file : File)
    → lookup other files ≡ some file
    → lookup other (generate_secret_file os path files).0 ≡ some file
unfolding generate_secret_file
generate_secret_file_keeps os path other files file h =
    generate_with_keeps os path other files (os.random 32) file h

-- `crypto/rand` fills the slice with bytes.
abbrev pub Fills : Os → Type 0
Fills os = (n : ℕ) (s : Text) → os.random n ≡ some s → All IsByte s × (length s ≡ n)

-- The owner of a file that is private may read it, and a umask only takes bits away.
abbrev pub Reads : Os → Type 0
Reads os =
    (shared_bits (os.umasked 384) ≡ 0)
    × ((file : File)
        → file.mode ≡ os.umasked 384
        → (os.may_open file ≡ true) × (os.may_examine file ≡ true) × (os.may_read file ≡ true))

abbrev stored : Os → Text → File
stored os text = record { is_regular = true; mode = os.umasked 384; content = text }

lookup-stored :
    (os : Os) (path text : Text) (files : FileSystem)
    → lookup path (insert path (stored os text) files) ≡ some (stored os text)
lookup-stored os path text files =
    rw (lookup-insert path path (stored os text) files, text_eq_refl path)

write_file_stores :
    (os : Os) (path text : Text) (files : FileSystem) (stop : Option ℕ)
    → (write_file os path files text stop).1 ≡ ok tt
    → lookup path (write_file os path files text stop).0 ≡ some (stored os text)
write_file_stores os path text files none h = lookup-stored os path text files
write_file_stores os path text files (some n) h = absurd (cc)

create_file_stores :
    (os : Os) (path text : Text) (files : FileSystem) (there : Option File)
    → (create_file os path text files there).1 ≡ ok tt
    → lookup path (create_file os path text files there).0 ≡ some (stored os text)
create_file_stores os path text files (some there) h = absurd (cc)
create_file_stores os path text files none h = elim (Bool-cases (os.may_create path)) [
  | inl may ↦ rw may (write_file_stores os path text files (os.short_write text) (rw may at h))
  | inr bars ↦ absurd (let e = rw bars at h in cc)
]

generate_with_stores :
    (os : Os) (path : Text) (files : FileSystem) (random : Option Text)
    → (generate_with os path files random).1 ≡ ok tt
    → (secret : Text) × (random ≡ some secret)
      × (lookup path (generate_with os path files random).0
          ≡ some (stored os (base64_encode secret ++ 10 ∷ [])))
generate_with_stores os path files none h = absurd (cc)
generate_with_stores os path files (some secret) h =
    (secret, refl, create_file_stores os path _ files (lookup path files) h)

private_checks :
    (os : Os) (file : File)
    → os.may_open file ≡ true
    → os.may_examine file ≡ true
    → os.may_read file ≡ true
    → file.is_regular ≡ true
    → shared_bits file.mode ≡ 0
    → (guard (os.may_open file) SecretError.not_opened >> check_file os file) ≡ ok tt
private_checks os file h1 h2 h3 h4 h5 = ground arith

-- A key file that was generated without an error is loaded again as the random bytes it was made
-- of, if the owner may read what he created.
pub load-generate :
    (os : Os) (path : Text) (files : FileSystem)
    → Fills os
    → Reads os
    → (generate_secret_file os path files).1 ≡ ok tt
    → (secret : Text) × (os.random 32 ≡ some secret)
      × (load_secret_file os path (generate_secret_file os path files).0 ≡ ok secret)
unfolding generate_secret_file load_secret_file
load-generate os path files fills reads h =
    let (secret, drawn, there) = generate_with_stores os path files (os.random 32) h in
    let (bytes, long) = fills 32 secret drawn in
    let (o, e, r) = reads.1 (stored os (base64_encode secret ++ 10 ∷ [])) refl in
    (
      secret,
      drawn,
      rw (there, private_checks os (stored os (base64_encode secret ++ 10 ∷ [])) o e r refl reads.0)
          (decode_secret_base64 secret bytes (omega arith) (λ e. omega arith)),
    )
