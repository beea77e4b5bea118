-- ===== src/Daemon/Bindings.antt =====
-- The writers of vendors' bindings: `claim_binding`, `release_binding` and `validate_identifier` of
-- crates/maestrod/src/fake_session.rs.
pub mod Writers
use maestro_app.Prelude.{
  ℕ, ◌*◌, String, Bool, true, false, not, ◌||◌, Option, none, some, List, [], ◌∷◌, ltb, ◌==◌,
  if◌then◌else◌, length, any, codes, byte_length, Result, ok, err, string_eq, get, insert, remove,
}

abbrev pub max_launch_text_bytes : ℕ
max_launch_text_bytes = 1024

pub data BindingError : Type 0 where
  invalid_identifier : BindingError
  active_writer : (owner_session_id : ℕ) → BindingError

unfoldable pub validate_identifier : String → Result (Unit {0}) BindingError
validate_identifier value =
    if byte_length value == 0
      || (ltb max_launch_text_bytes (byte_length value)
          || any (λ b. (b == b'\n') || (b == b'\r')) (codes value))
    then err invalid_identifier
    else ok tt

pub record BindingWriter : Type 0 where
  pub token : ℕ
  pub session_id : ℕ

-- The map `binding_writers`.
abbrev pub Writers : Type 0
Writers = List (String × BindingWriter)

abbrev claim_valid :
    Writers → String → ℕ → ℕ → Option BindingWriter → Writers × Result (Unit {0}) BindingError
claim_valid writers binding token session_id none =
    (insert binding (record { token = token; session_id = session_id }) writers, ok tt)
claim_valid writers binding token session_id (some owner) =
    (writers, err (active_writer owner.session_id))

abbrev claim_checked :
    Writers
    → String
    → ℕ
    → ℕ
    → Result (Unit {0}) BindingError
    → Writers × Result (Unit {0}) BindingError
claim_checked writers binding token session_id (err e) = (writers, err e)
claim_checked writers binding token session_id (ok tt) =
    claim_valid writers binding token session_id (get writers binding)

unfoldable pub claim_binding : Writers → String → ℕ → ℕ → Writers × Result (Unit {0}) BindingError
claim_binding writers binding token session_id =
    claim_checked writers binding token session_id (validate_identifier binding)

abbrev pub is_owner : Option BindingWriter → ℕ → Bool
is_owner none token = false
is_owner (some owner) token = owner.token == token

unfoldable pub release_binding : Writers → String → ℕ → Writers
release_binding writers binding token =
    if is_owner (get writers binding) token then remove binding writers else writers
