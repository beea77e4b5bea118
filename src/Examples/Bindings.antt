-- ===== src/Examples/Bindings.antt =====
-- The writers of bindings (crates/maestrod/src/fake_session.rs) at a concrete history.
use maestro_app.Prelude.{◌≡◌, refl, some, List, [], ◌∷◌, ok, err, string_eq, get, insert, remove}
use maestro_app.Daemon.Bindings.{
  active_writer, BindingWriter, Writers, validate_identifier, claim_binding,
}
use maestro_app.Daemon.Limits.{validate, default_limits}
use maestro_app.Daemon.Bindings.Writers.{Change, claims, releases, changes, changes_owner}

abbrev owner : BindingWriter
owner = record { token = 5; session_id = 1 }

abbrev writers : Writers
writers = (claim_binding [] "thread" 5 1).0

abbrev later : List Change
later = claims "thread" 6 2 ∷ releases "thread" 6 ∷ claims "other" 6 2 ∷ []

owned : get writers "thread" ≡ some owner
unfolding claim_binding validate_identifier get insert remove
owned = refl

valid : validate_identifier "thread" ≡ ok tt
unfolding validate_identifier
valid = refl

changes_owner_example :
    (get (changes writers later) "thread" ≡ some owner)
    × ((claim_binding (changes writers later) "thread" 7 3).1 ≡ err (active_writer 1))
changes_owner_example =
    changes_owner later writers "thread" owner 7 3 (refl, (refl, (refl, tt))) valid owned

defaults_are_valid : validate default_limits ≡ ok default_limits
unfolding validate default_limits
defaults_are_valid = refl
