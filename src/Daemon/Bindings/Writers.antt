-- ===== src/Daemon/Bindings/Writers.antt =====
-- Histories of `claim_binding` and `release_binding` of crates/maestrod/src/fake_session.rs.
use maestro_app.Prelude.{
  ℕ, ◌≡◌, ◌≢◌, ◌↔◌, refl, String, Bool, false, ◌&&◌, none, some, List, [], ◌∷◌, arith, ◌==◌, All,
  inl, inr, Option-cases, Result-cases, ok, err, string_eq, str_eq, eq_iff, get, get-insert,
  get-remove,
}
use maestro_app.Daemon.Bindings.{
  active_writer, BindingWriter, Writers, validate_identifier, claim_binding, release_binding,
}

-- A claim succeeds exactly if the name is valid and free, and then the claimant is its writer;
-- otherwise nothing changes, and a claim of a taken name tells the session of the writer.
pub claim_binding_iff :
    (w : Writers) (binding : String) (token session : ℕ)
    → (((claim_binding w binding token session).1 ≡ ok tt)
        ↔ ((validate_identifier binding ≡ ok tt) × (get w binding ≡ none)))
      × (((claim_binding w binding token session).1 ≡ ok tt)
          → get (claim_binding w binding token session).0 binding
            ≡ some (record { token = token; session_id = session }))
      × (((claim_binding w binding token session).1 ≢ ok tt)
          → (claim_binding w binding token session).0 ≡ w)
unfolding claim_binding
claim_binding_iff w binding token session = elim (Result-cases (validate_identifier binding)) [
  | inl (u, valid) ↦ elim (Option-cases (get w binding)) [
    | inl free ↦
        rw (valid, free)
          (ground (
            arith,
            get-insert w binding binding (record { token = token; session_id = session }),
            eq_iff binding binding,
          ))
    | inr (owner, taken) ↦ rw (valid, taken) (ground arith)
  ]
  | inr (e, invalid) ↦ rw invalid (ground arith)
]

-- What the supervisor does to the map.
pub data Change : Type 0 where
  claims : String → (token session_id : ℕ) → Change
  releases : String → (token : ℕ) → Change

unfoldable pub change : Writers → Change → Writers
unfolding claim_binding release_binding
change w (claims binding token session) = (claim_binding w binding token session).0
change w (releases binding token) = release_binding w binding token

abbrev pub changes : Writers → List Change → Writers
changes w [] = w
changes w (c ∷ cs) = changes (change w c) cs

-- A release of the binding under the owner's token.
abbrev pub releases_it : String → ℕ → Change → Bool
releases_it binding token (claims b t s) = false
releases_it binding token (releases b t) = str_eq b binding && (t == token)

pub claim_owner :
    (w : Writers) (binding : String) (owner : BindingWriter) (b : String) (t s : ℕ)
    → get w binding ≡ some owner
    → get (claim_binding w b t s).0 binding ≡ some owner
unfolding claim_binding
claim_owner w binding owner b t s e = elim (Result-cases (validate_identifier b)) [
  | inr (_, invalid) ↦ rw invalid e
  | inl (u, valid) ↦ elim (Option-cases (get w b)) [
    | inl free ↦
        rw (valid, free)
          (ground (
            arith,
            get-insert w b binding (record { token = t; session_id = s }),
            eq_iff b binding,
          ))
    | inr (other, taken) ↦ rw (valid, taken) e
  ]
]

change_owner :
    (w : Writers) (binding : String) (owner : BindingWriter) (c : Change)
    → releases_it binding owner.token c ≡ false
    → get w binding ≡ some owner
    → get (change w c) binding ≡ some owner
unfolding change claim_binding release_binding
change_owner w binding owner (claims b t s) h e = claim_owner w binding owner b t s e
change_owner w binding owner (releases b t) h e =
    ground (arith, get-remove w b binding, eq_iff b binding)

-- The writer of a binding with a valid name keeps it through every history of claims and releases, by
-- whomever, until its own token releases it, and meanwhile every claim of it is refused with an error
-- that names the session of that writer.
pub changes_owner :
    (cs : List Change) (w : Writers) (binding : String) (owner : BindingWriter) (token session : ℕ)
    → All (λ c. releases_it binding owner.token c ≡ false) cs
    → validate_identifier binding ≡ ok tt
    → get w binding ≡ some owner
    → (get (changes w cs) binding ≡ some owner)
      × ((claim_binding (changes w cs) binding token session).1
          ≡ err (active_writer owner.session_id))
unfolding claim_binding
changes_owner [] w binding owner token session h valid e = (e, rw (valid, e) refl)
changes_owner (c ∷ cs) w binding owner token session h valid e =
    changes_owner cs (change w c) binding owner token session h.1 valid
      (change_owner w binding owner c h.0 e)
