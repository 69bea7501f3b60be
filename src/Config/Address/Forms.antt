-- ===== src/Config/Address/Forms.antt =====
-- The addresses that `net.SplitHostPort` takes apart, and those that pass `validateHostPort`.
use mule.Base.{
  ℕ, ◌≡◌, refl, ◌∙◌, ◌↔◌, ◌⊎◌, inl, inr, Text, Bool, true, false, ◌&&◌, not, [], ◌∷◌, ◌++◌, some,
  ◌==◌, arith, Bool-cases, Option-cases, ok,
}
use mule.Config.Strings.{contains, cut}
use mule.Config.Strings.Cutting.{contains-append, cut_first, cut_found}
use mule.Config.Address.{split_bracketed, split_plain, split_host_port}

abbrev pub no_brackets : Text → Bool
no_brackets t = not (contains b'[' t) && not (contains b']' t)

abbrev pub is_clear : Text → Bool
is_clear t = not (contains b':' t) && no_brackets t

-- `host:port` with neither colons nor brackets in its parts.
abbrev pub IsPlain : Text → Text → Text → Type 0
IsPlain addr host port =
    (addr ≡ host ++ b':' ∷ port) × (is_clear host ≡ true) × (is_clear port ≡ true)

-- `[host]:port`, where the host may hold colons.
abbrev pub IsBracketed : Text → Text → Text → Type 0
IsBracketed addr host port =
    (addr ≡ b'[' ∷ host ++ b']' ∷ b':' ∷ port) × (no_brackets host ≡ true) × (is_clear port ≡ true)

split_plain_iff :
    (host port h p : Text)
    → contains b':' host ≡ false
    → (split_plain host port ≡ ok (h, p))
      ↔ ((h ≡ host) × (p ≡ port) × (is_clear host ≡ true) × (is_clear port ≡ true))
unfolding split_plain contains
split_plain_iff host port h p no_colon = (
  λ e.
      ground
        (arith, contains-append b'[' host (b':' ∷ port), contains-append b']' host (b':' ∷ port)),
  λ e.
      ground
        (arith, contains-append b'[' host (b':' ∷ port), contains-append b']' host (b':' ∷ port)),
)

split_bracketed_iff :
    (host after h p : Text)
    → contains b']' host ≡ false
    → (split_bracketed host after ≡ ok (h, p))
      ↔ ((h ≡ host) × (after ≡ b':' ∷ p) × (no_brackets host ≡ true) × (is_clear p ≡ true))
unfolding split_bracketed contains
split_bracketed_iff host [] h p closed = ground arith
split_bracketed_iff host (c ∷ port) h p closed = (
  λ e. ground (arith, contains-append b'[' host (b']' ∷ c ∷ port)),
  λ e. ground (arith, contains-append b'[' host (b']' ∷ c ∷ port)),
)

plain_step :
    (c : ℕ) (s host port : Text)
    → (c == b'[') ≡ false
    → contains b':' (c ∷ s) ≡ true
    → cut b':' (c ∷ s) ≡ some (host, port)
    → split_host_port (c ∷ s) ≡ split_plain host port
unfolding split_host_port
plain_step c s host port other colon e = rw (colon, other, e)

bracketed_step :
    (s host after : Text)
    → contains b':' (b'[' ∷ s) ≡ true
    → cut b']' s ≡ some (host, after)
    → split_host_port (b'[' ∷ s) ≡ split_bracketed host after
unfolding split_host_port
bracketed_step s host after colon e = rw (colon, e)

split_of_plain :
    (host port : Text)
    → is_clear host ≡ true
    → is_clear port ≡ true
    → split_host_port (host ++ b':' ∷ port) ≡ ok (host, port)
split_of_plain [] port h p =
    plain_step b':' port [] port refl (unfold contains in refl)
      (cut_first b':' [] port (unfold contains in refl))
    ∙ (split_plain_iff [] port [] port (unfold contains in refl)).1 (refl, refl, h, p)
split_of_plain (x ∷ host) port h p =
    let clear : contains b':' (x ∷ host) ≡ false = ground arith in
    plain_step x (host ++ b':' ∷ port) (x ∷ host) port (unfold contains in ground arith)
      (rw (contains-append b':' (x ∷ host) (b':' ∷ port), clear) (unfold contains in refl))
      (cut_first b':' (x ∷ host) port clear)
    ∙ (split_plain_iff (x ∷ host) port (x ∷ host) port clear).1 (refl, refl, h, p)

split_of_bracketed :
    (host port : Text)
    → no_brackets host ≡ true
    → is_clear port ≡ true
    → split_host_port (b'[' ∷ host ++ b']' ∷ b':' ∷ port) ≡ ok (host, port)
split_of_bracketed host port h p =
    let closed : contains b']' host ≡ false = ground arith in
    bracketed_step (host ++ b']' ∷ b':' ∷ port) host (b':' ∷ port)
      (unfold contains in ground (arith, contains-append b':' host (b']' ∷ b':' ∷ port)))
      (cut_first b']' host (b':' ∷ port) closed)
    ∙ (split_bracketed_iff host (b':' ∷ port) host port closed).1 (refl, refl, h, p)

split_accepts :
    (addr h p : Text) → split_host_port addr ≡ ok (h, p) → IsPlain addr h p ⊎ IsBracketed addr h p
unfolding split_host_port
split_accepts [] h p e = cc
split_accepts (c ∷ s) h p e = elim (Bool-cases (contains b':' (c ∷ s))) [
  | inr no_colon ↦ ground arith
  | inl colon ↦ elim (Bool-cases (c == b'[')) [
    | inl bracket ↦ elim (Option-cases (cut b']' s)) [
      | inl q ↦ ground arith
      | inr ((host, after), q) ↦
          let (whole, closed) = cut_found b']' s host after q in
          ground (arith, split_bracketed_iff host after h p)
    ]
    | inr plain ↦ elim (Option-cases (cut b':' (c ∷ s))) [
      | inl q ↦ ground arith
      | inr ((host, port), q) ↦
          let (whole, before) = cut_found b':' (c ∷ s) host port q in
          ground (arith, split_plain_iff host port h p)
    ]
  ]
]

-- `net.SplitHostPort` takes apart exactly the addresses of the two forms.
pub split_host_port_iff :
    (addr h p : Text)
    → (split_host_port addr ≡ ok (h, p)) ↔ (IsPlain addr h p ⊎ IsBracketed addr h p)
split_host_port_iff addr h p = (
  split_accepts addr h p,
  λ form. elim form [
    | inl (e, host, port) ↦ rw e (split_of_plain h p host port)
    | inr (e, host, port) ↦ rw e (split_of_bracketed h p host port)
  ],
)
