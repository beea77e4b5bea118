-- ===== src/Process/Environment.antt =====
-- crates/maestro-process/src/environment.rs: which variables a child process inherits. Names and
-- values are texts; `to_string_lossy` does not change them then.
pub mod Policy
use maestro_app.Prelude.{
  ℕ, ◌-◌, Bool, true, false, ◌&&◌, ◌||◌, not, List, [], ◌∷◌, String, if◌then◌else◌, map, any,
  string_eq, contains, with_key, get, insert, str_eq, codes,
}
use maestro_app.Redaction.Bytes.{is_lower, starts_with}

-- `to_ascii_uppercase`, on the codes of a text.
abbrev to_upper : ℕ → ℕ
to_upper c = if is_lower c then c - 32 else c

abbrev default_allowed : List String
default_allowed =
    "COLORTERM" ∷ "DBUS_SESSION_BUS_ADDRESS" ∷ "DISPLAY" ∷ "HOME" ∷ "LANG" ∷ "LC_ALL" ∷ "LC_CTYPE"
    ∷ "LOGNAME" ∷ "PATH" ∷ "SHELL" ∷ "SSH_AUTH_SOCK" ∷ "TERM" ∷ "TMPDIR" ∷ "USER"
    ∷ "WAYLAND_DISPLAY" ∷ "XAUTHORITY" ∷ "XDG_CACHE_HOME" ∷ "XDG_CONFIG_HOME" ∷ "XDG_DATA_HOME"
    ∷ "XDG_RUNTIME_DIR" ∷ "XDG_STATE_HOME" ∷ []

abbrev secret_markers : List String
secret_markers = "AUTH" ∷ "CREDENTIAL" ∷ "KEY" ∷ "PASSWORD" ∷ "SECRET" ∷ "TOKEN" ∷ []

pub record EnvironmentPolicy : Type 0 where
  pub allowed : List String
  pub denied : List String
  pub overrides : List (String × String)
  pub inherit_full : Bool

unfoldable pub default_policy : EnvironmentPolicy
default_policy = record {
  allowed = default_allowed;
  denied = [];
  overrides = [];
  inherit_full = false;
}

unfoldable pub allow_name : EnvironmentPolicy → String → EnvironmentPolicy
unfolding with_key
allow_name p name = record p { allowed = with_key name p.allowed }

unfoldable pub deny_name : EnvironmentPolicy → String → EnvironmentPolicy
unfolding with_key
deny_name p name = record p { denied = with_key name p.denied }

unfoldable pub override_value : EnvironmentPolicy → String → String → EnvironmentPolicy
unfolding insert
override_value p name value = record p { overrides = insert name value p.overrides }

unfoldable pub inherit_fully : EnvironmentPolicy → Bool → EnvironmentPolicy
inherit_fully p enabled = record p { inherit_full = enabled }

-- The two loops of `evaluate`, each over the variables still to come.
unfoldable pub inherit_from :
    EnvironmentPolicy → List (String × String) → List (String × String) → List (String × String)
inherit_from p [] values = values
inherit_from p ((name, value) ∷ source) values = inherit_from p source (
    if not (contains p.denied name) && (p.inherit_full || contains p.allowed name)
    then insert name value values
    else values)

unfoldable pub apply_overrides :
    EnvironmentPolicy → List (String × String) → List (String × String) → List (String × String)
apply_overrides p [] values = values
apply_overrides p ((name, value) ∷ overrides) values =
    apply_overrides p overrides
      (if contains p.denied name then values else insert name value values)

unfoldable pub evaluate : EnvironmentPolicy → List (String × String) → List (String × String)
unfolding inherit_from apply_overrides
evaluate p source = apply_overrides p p.overrides (inherit_from p source [])

-- `str::contains`
abbrev contains_text : List ℕ → List ℕ → Bool
contains_text [] needle = starts_with [] needle
contains_text (c ∷ cs) needle = starts_with (c ∷ cs) needle || contains_text cs needle

unfoldable pub masked_value : String → String → String
masked_value name value =
    if any (λ marker. contains_text (map to_upper (codes name)) (codes marker)) secret_markers
    then "[REDACTED]"
    else value

unfoldable pub preview : List (String × String) → List (String × String)
unfolding masked_value
preview values = map (λ v. (v.0, masked_value v.0 v.1)) values
