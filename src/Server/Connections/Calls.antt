-- ===== src/Server/Connections/Calls.antt =====
-- What one call of the registry changes of what an agent has.
use mule.Base.{
  ℕ, ◌≡◌, ◌↔◌, ◌⊎◌, inl, inr, refl, sym, ap, ◌∙◌, Text, true, List, Option, none, some, lookup,
  text_eq, text_eq_iff, lookup-insert, lookup-delete, Bool-cases, Option-cases, arith,
}
use mule.Server.Connections.{register, is_conn, unregister}
use mule.Server.Connections.Registry.{
  Operation, registers, unregisters, asks, closes, operate, Keeps, Accepts,
}

-- What an agent has after an operation: what it had, or what has just been registered.
unfoldable pub HasAfter : Text → ℕ → Operation → List (Text × ℕ) → Type 0
HasAfter a c op conns =
    ((lookup a conns ≡ some c) × Keeps a c op) ⊎ ((op ≡ registers a c) × Accepts a c conns)

pub register_fresh_iff :
    (a : Text) (c : ℕ) (conns : List (Text × ℕ)) → Accepts a c conns ↔ (lookup a conns ≡ none)
unfolding operate register
register_fresh_iff a c conns = elim (Option-cases (lookup a conns)) [
  | inl fresh ↦ rw fresh (λ e. refl, λ e. refl)
  | inr (x, there) ↦ rw there (λ e. absurd (cc), λ e. absurd (cc))
]

-- A new connection of an agent.
registered_here : (b a : Text) (d c : ℕ) → registers b d ≡ registers a c → (b ≡ a) × (d ≡ c)
registered_here b a d c e = (cc, cc)

HasAfter-register :
    (a b : Text) (c d : ℕ) (conns : List (Text × ℕ))
    → (lookup a (operate (registers b d) conns).1 ≡ some c) ↔ HasAfter a c (registers b d) conns
unfolding HasAfter operate register
HasAfter-register a b c d conns = elim (Option-cases (lookup b conns)) [
  | inr (x, there) ↦ rw there (
    λ e. inl (e, (λ q. cc, λ q. cc)),
    λ h. elim h [
      | inl (e, k) ↦ e
      | inr (q, accepted) ↦
          let same = ap (λ (k : Text). lookup k conns) (registered_here b a d c q).0 in
          absurd (let missing = (register_fresh_iff a c conns).0 accepted in cc)
    ],
  )
  | inl fresh ↦
      rw (fresh, lookup-insert b a d conns)
        (elim (Bool-cases (text_eq b a)) [
          | inl same ↦
              let b_is = (text_eq_iff b a).0 same in
              rw same (
                λ e. inr (
                  rw b_is (ap (registers a) cc),
                  (register_fresh_iff a c conns).1 (rw (sym b_is) fresh),
                ),
                λ h. elim h [
                  | inl (e, k) ↦ absurd (let missing = ap (λ (k : Text). lookup k conns) b_is in cc)
                  | inr (q, accepted) ↦ ap some (registered_here b a d c q).1
                ],
              )
          | inr other ↦ rw other (
            λ e. inl (e, (λ q. cc, λ q. cc)),
            λ h. elim h [
              | inl (e, k) ↦ e
              | inr (q, accepted) ↦
                  absurd (let same = (text_eq_iff b a).1 (registered_here b a d c q).0 in cc)
            ],
          )
        ])
]

unregistered_here : (b a : Text) (d c : ℕ) → unregisters b d ≡ unregisters a c → (b ≡ a) × (d ≡ c)
unregistered_here b a d c e = (cc, cc)

-- The guard of `unregister`.
is_conn_iff : (d : ℕ) (o : Option ℕ) → (is_conn d o ≡ true) ↔ (o ≡ some d)
is_conn_iff d none = (λ e. absurd (cc), λ e. absurd (cc))
is_conn_iff d (some x) = (λ e. ap some (ground arith), λ e. let same : x ≡ d = cc in ground arith)

HasAfter-unregister :
    (a b : Text) (c d : ℕ) (conns : List (Text × ℕ))
    → (lookup a (operate (unregisters b d) conns).1 ≡ some c) ↔ HasAfter a c (unregisters b d) conns
unfolding HasAfter operate unregister
HasAfter-unregister a b c d conns = elim (Bool-cases (is_conn d (lookup b conns))) [
  | inr kept ↦ rw kept (
    λ e. inl (
      e,
      (
        λ q.
            let (b_is, d_is) = unregistered_here b a d c q in
            let here : lookup b conns ≡ some d =
              ap (λ (k : Text). lookup k conns) b_is ∙ e ∙ ap some (sym d_is) in
            let is = (is_conn_iff d (lookup b conns)).1 here in cc,
        λ q. cc,
      ),
    ),
    λ h. elim h [ inl (e, k) ↦ e | inr (q, accepted) ↦ absurd (cc) ],
  )
  | inl gone ↦
      let here = (is_conn_iff d (lookup b conns)).0 gone in
      rw (gone, lookup-delete b a conns)
        (elim (Bool-cases (text_eq b a)) [
          | inl same ↦
              let b_is = (text_eq_iff b a).0 same in
              rw same (
                λ e. absurd (cc),
                λ h. elim h [
                  | inl (e, k) ↦
                      let d_is : d ≡ c = cc (here, e, ap (λ (k : Text). lookup k conns) b_is) in
                      absurd (k.0 (rw (b_is, d_is) refl))
                  | inr (q, accepted) ↦ absurd (cc)
                ],
              )
          | inr other ↦ rw other (
            λ e. inl (
              e,
              (λ q. let same = (text_eq_iff b a).1 (unregistered_here b a d c q).0 in cc, λ q. cc),
            ),
            λ h. elim h [ inl (e, k) ↦ e | inr (q, accepted) ↦ absurd (cc) ],
          )
        ])
]

pub HasAfter-operate :
    (a : Text) (c : ℕ) (op : Operation) (conns : List (Text × ℕ))
    → (lookup a (operate op conns).1 ≡ some c) ↔ HasAfter a c op conns
unfolding HasAfter operate lookup
HasAfter-operate a c (registers b d) conns = HasAfter-register a b c d conns
HasAfter-operate a c (unregisters b d) conns = HasAfter-unregister a b c d conns
HasAfter-operate a c (asks b) conns = (
  λ e. inl (e, (λ q. cc, λ q. cc)),
  λ h. elim h [ inl (e, k) ↦ e | inr (q, accepted) ↦ absurd (cc) ],
)
HasAfter-operate a c closes conns = (
  λ e. absurd (cc),
  λ h. elim h [ inl (e, k) ↦ absurd (k.1 refl) | inr (q, accepted) ↦ absurd (cc) ],
)
