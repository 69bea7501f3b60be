-- ===== src/Auth/Names.antt =====
-- The server names of different agents, and the certificates under them.
use mule.Base.{
  ℕ, ◌≡◌, inl, inr, refl, sym, ap, ◌∙◌, Text, false, [], ◌∷◌, ◌++◌, List, some, if◌then◌else◌,
  codes, length, take, length-append, take-append, append_assoc, text_eq, text_eq_refl,
  text_eq_sound, text_eq_iff, lookup, insert, lookup-insert, Bool-cases, arith, has_text,
}
use mule.Config.Strings.{is_empty}
use mule.Auth.Keys.{Certificate, exit_server_name, probe_server_name}
use mule.Auth.Identities.{exit_server_name_for_client, probe_server_name_for_client}

append_cancel : (s t u : Text) → s ++ u ≡ t ++ u → s ≡ t
append_cancel s t u e =
    let same : length s ≡ length t =
      (let lengths = ap length e in omega (arith, length-append s u, length-append t u)) in
    sym (take-append s u)
    ∙ ap (λ n. take n (s ++ u)) same
    ∙ ap (take (length t)) e
    ∙ take-append t u

-- The last byte of a text, or zero.
abbrev last_byte : Text → ℕ
last_byte [] = 0
last_byte (c ∷ []) = c
last_byte (c ∷ d ∷ s) = last_byte (d ∷ s)

last_byte-append : (s : Text) (c : ℕ) (t : Text) → last_byte (s ++ c ∷ t) ≡ last_byte (c ∷ t)
last_byte-append [] c t = refl
last_byte-append (d ∷ []) c t = refl
last_byte-append (d ∷ e ∷ s) c t = last_byte-append (e ∷ s) c t

exit_name_is :
    (id : Text) → is_empty id ≡ false → exit_server_name_for_client id ≡ id ++ codes ".mule-exit"
exit_name_is [] h = absurd (cc)
exit_name_is (c ∷ id) h = append_assoc (c ∷ id) (codes ".") exit_server_name

probe_name_is :
    (id : Text) → is_empty id ≡ false → probe_server_name_for_client id ≡ id ++ codes ".mule-probe"
probe_name_is [] h = absurd (cc)
probe_name_is (c ∷ id) h = append_assoc (c ∷ id) (codes ".") probe_server_name

exit_names_differ :
    (i j : Text)
    → is_empty i ≡ false
    → is_empty j ≡ false
    → text_eq j i ≡ false
    → text_eq (exit_server_name_for_client j) (exit_server_name_for_client i) ≡ false
exit_names_differ i j ni nj apart =
    elim (Bool-cases (text_eq (exit_server_name_for_client j) (exit_server_name_for_client i))) [
      | inr e ↦ e
      | inl e ↦
          let same = append_cancel j i (codes ".mule-exit") (
            sym (exit_name_is j nj)
            ∙ text_eq_sound (exit_server_name_for_client j) (exit_server_name_for_client i) e
            ∙ exit_name_is i ni) in
          absurd (let eq = (text_eq_iff j i).1 same in cc)
    ]

probe_name_differs :
    (i j : Text)
    → is_empty i ≡ false
    → is_empty j ≡ false
    → text_eq (probe_server_name_for_client j) (exit_server_name_for_client i) ≡ false
probe_name_differs i j ni nj =
    elim (Bool-cases (text_eq (probe_server_name_for_client j) (exit_server_name_for_client i))) [
      | inr e ↦ e
      | inl e ↦
          let same = ap last_byte (
            sym (probe_name_is j nj)
            ∙ text_eq_sound (probe_server_name_for_client j) (exit_server_name_for_client i) e
            ∙ exit_name_is i ni) in
          absurd (
            let ends =
              sym (last_byte-append j b'.' (codes "mule-probe"))
              ∙ same
              ∙ last_byte-append i b'.' (codes "mule-exit") in
            omega arith)
    ]

pub inserted_other :
    (id j : Text) (cert : Certificate) (m : List (Text × Certificate))
    → is_empty id ≡ false
    → is_empty j ≡ false
    → text_eq j id ≡ false
    → lookup (exit_server_name_for_client id) (
        insert
          (probe_server_name_for_client j)
          cert
          (insert (exit_server_name_for_client j) cert m))
      ≡ lookup (exit_server_name_for_client id) m
inserted_other id j cert m named named' apart =
    lookup-insert (probe_server_name_for_client j) (exit_server_name_for_client id) cert
      (insert (exit_server_name_for_client j) cert m)
    ∙ ap
        (λ b.
          if b
          then some cert
          else lookup (exit_server_name_for_client id)
              (insert (exit_server_name_for_client j) cert m))
        (probe_name_differs id j named named')
    ∙ lookup-insert (exit_server_name_for_client j) (exit_server_name_for_client id) cert m
    ∙ ap (λ b. if b then some cert else lookup (exit_server_name_for_client id) m)
        (exit_names_differ id j named named' apart)

pub inserted_own :
    (id : Text) (cert : Certificate) (m : List (Text × Certificate))
    → is_empty id ≡ false
    → lookup (exit_server_name_for_client id) (
        insert
          (probe_server_name_for_client id)
          cert
          (insert (exit_server_name_for_client id) cert m))
      ≡ some cert
inserted_own id cert m named =
    lookup-insert (probe_server_name_for_client id) (exit_server_name_for_client id) cert
      (insert (exit_server_name_for_client id) cert m)
    ∙ ap
        (λ b.
          if b
          then some cert
          else lookup (exit_server_name_for_client id)
              (insert (exit_server_name_for_client id) cert m))
        (probe_name_differs id id named named)
    ∙ lookup-insert (exit_server_name_for_client id) (exit_server_name_for_client id) cert m
    ∙ ap (λ b. if b then some cert else lookup (exit_server_name_for_client id) m)
        (text_eq_refl (exit_server_name_for_client id))

pub apart_here :
    (id j : Text) (js : List Text) → has_text id (j ∷ js) ≡ false → text_eq j id ≡ false
unfolding has_text
apart_here id j js h = ground (arith, text_eq_iff j id, text_eq_iff id j)

pub apart_rest :
    (id j : Text) (js : List Text) → has_text id (j ∷ js) ≡ false → has_text id js ≡ false
unfolding has_text
apart_rest id j js h = ground arith
