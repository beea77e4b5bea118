-- ===== src/Examples/Environment.antt =====
-- The environment policy of crates/maestro-process/src/environment.rs at concrete variables.
use maestro_app.Prelude.{
  ◌≡◌, refl, none, some, List, [], ◌∷◌, String, string_eq, contains, with_key, get, insert, remove,
  if◌then◌else◌, ◌||◌,
}
use maestro_app.Process.Environment.{
  EnvironmentPolicy, default_policy, deny_name, override_value, inherit_from, apply_overrides,
  evaluate, masked_value,
}
use maestro_app.Process.Environment.Policy.{latest, get-evaluate}

abbrev policy : EnvironmentPolicy
policy = deny_name (override_value default_policy "BLOCKED" "override") "BLOCKED"

abbrev source : List (String × String)
source = ("HOME", "/tmp/home") ∷ ("BLOCKED", "source") ∷ ("FIXTURE_TOKEN", "secret") ∷ []

home_is_inherited : get (evaluate policy source) "HOME" ≡ some "/tmp/home"
unfolding evaluate inherit_from apply_overrides deny_name override_value default_policy contains
    with_key get insert remove
home_is_inherited = refl

blocked_is_denied : get (evaluate policy source) "BLOCKED" ≡ none
unfolding evaluate inherit_from apply_overrides deny_name override_value default_policy contains
    with_key get insert remove
blocked_is_denied = refl

secret_is_masked : masked_value "service_api_key" "fixture" ≡ "[REDACTED]"
unfolding masked_value
secret_is_masked = refl

get-evaluate_example : get (evaluate policy source) "HOME" ≡ (
    if contains policy.denied "HOME"
    then none
    else latest policy.overrides "HOME" (
        if policy.inherit_full || contains policy.allowed "HOME"
        then latest source "HOME" none
        else none))
get-evaluate_example = get-evaluate policy source "HOME"
