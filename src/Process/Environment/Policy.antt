-- ===== src/Process/Environment/Policy.antt =====
-- What `evaluate` of crates/maestro-process/src/environment.rs lets through.
use maestro_app.Prelude.{
  ◌≡◌, refl, Bool, ◌&&◌, ◌||◌, not, Option, none, some, List, [], ◌∷◌, String, arith, if◌then◌else◌,
  string_eq, str_eq, eq_iff, contains, get, insert, get-insert,
}
use maestro_app.Process.Environment.{EnvironmentPolicy, inherit_from, apply_overrides, evaluate}

-- The last value of a name, as a map built from the list has it.
abbrev pub latest : List (String × String) → String → Option String → Option String
latest [] name known = known
latest ((n, v) ∷ rest) name known = latest rest name (if str_eq n name then some v else known)

-- Whether a name is inherited.
abbrev pub passes : EnvironmentPolicy → String → Bool
passes p name = not (contains p.denied name) && (p.inherit_full || contains p.allowed name)

get-inherit_from :
    (p : EnvironmentPolicy) (source values : List (String × String)) (name : String)
    → get (inherit_from p source values) name
      ≡ (if passes p name then latest source name (get values name) else get values name)
unfolding inherit_from
get-inherit_from p [] values name = ground arith
get-inherit_from p ((n, v) ∷ source) values name = ground (
  arith,
  get-inherit_from p source (insert n v values) name,
  get-inherit_from p source values name,
  get-insert values n name v,
  eq_iff n name,
)

get-apply_overrides :
    (p : EnvironmentPolicy) (overrides values : List (String × String)) (name : String)
    → get (apply_overrides p overrides values) name ≡ (
        if contains p.denied name then get values name else latest overrides name (get values name))
unfolding apply_overrides
get-apply_overrides p [] values name = ground arith
get-apply_overrides p ((n, v) ∷ overrides) values name = ground (
  arith,
  get-apply_overrides p overrides (insert n v values) name,
  get-apply_overrides p overrides values name,
  get-insert values n name v,
  eq_iff n name,
)

get-nil : (name : String) → get {V = String} [] name ≡ none
unfolding get
get-nil name = refl

-- A child process gets no denied variable, whatever the policy and the environment; any other one
-- it gets with its last override, or else, if it is allowed or everything is inherited, as the
-- environment has it, and not otherwise.
pub get-evaluate :
    (p : EnvironmentPolicy) (source : List (String × String)) (name : String)
    → get (evaluate p source) name ≡ (
        if contains p.denied name
        then none
        else latest p.overrides name
            (if p.inherit_full || contains p.allowed name then latest source name none else none))
unfolding evaluate
get-evaluate p source name = ground (
  arith,
  get-apply_overrides p p.overrides (inherit_from p source []) name,
  get-inherit_from p source [] name,
  get-nil name,
)
