-- ===== src/Domain/Permission.antt =====
-- crates/maestro-domain/src/permission.rs: the overlay of Maestro's rules over the vendor's policy.
-- An id is the number of its UUID and a time counts from the earliest one: the code only compares
-- them. A path is the list of its components. The regular expressions of the `regex` crate are the
-- parameter `Regex`, which fails on a pattern that does not compile.
pub mod Overlay
pub mod Selection
pub mod Creation
use maestro_app.Prelude.{
  ℕ, String, Bool, true, false, ◌&&◌, not, Option, none, some, List, [], ◌∷◌, ltb, leb, ◌==◌,
  str_eq, any, all, retain, if◌then◌else◌,
}

-- crates/maestro-domain/src/capability.rs
pub data AgentKind : Type 0 where
  codex claude agy fake : AgentKind

abbrev pub agent_eq : AgentKind → AgentKind → Bool
agent_eq codex codex = true
agent_eq claude claude = true
agent_eq agy agy = true
agent_eq fake fake = true
agent_eq _ _ = false

pub data PermissionEffect : Type 0 where
  allow deny : PermissionEffect

abbrev pub effect_eq : PermissionEffect → PermissionEffect → Bool
effect_eq allow allow = true
effect_eq deny deny = true
effect_eq _ _ = false

pub data PermissionRuleScope : Type 0 where
  request session project : ℕ → PermissionRuleScope
  cli : AgentKind → PermissionRuleScope
  global : PermissionRuleScope

abbrev pub FilePath : Type 0
FilePath = List String

-- `Path::starts_with` compares whole components.
unfoldable pub path_starts_with : FilePath → FilePath → Bool
path_starts_with path [] = true
path_starts_with [] (q ∷ qs) = false
path_starts_with (p ∷ ps) (q ∷ qs) = str_eq p q && path_starts_with ps qs

pub record PermissionRuleMatcher : Type 0 where
  pub tool_name : Option String
  pub command_regex : Option String
  pub canonical_path_prefix : Option FilePath

pub record PermissionRule : Type 0 where
  pub id : String
  pub effect : PermissionEffect
  pub scope : PermissionRuleScope
  pub matcher : PermissionRuleMatcher
  pub expires_at : Option ℕ
  pub created_at : ℕ
  pub creation_source : String

pub record PermissionRequestContext : Type 0 where
  pub request_id : ℕ
  pub session_id : ℕ
  pub project_id : ℕ
  pub agent : AgentKind
  pub tool_name : Option String
  pub command : Option String
  pub canonical_paths : List FilePath
  pub dangerous : Bool

pub data VendorDefaultDecision : Type 0 where
  allow deny ask : VendorDefaultDecision

pub record VendorPermissionPolicy : Type 0 where
  pub admin_or_vendor_denied : Bool
  pub explicitly_asks : Bool
  pub default_decision : VendorDefaultDecision

pub data PermissionEvaluationSource : Type 0 where
  vendor_or_admin_deny : PermissionEvaluationSource
  maestro_rule : String → PermissionEvaluationSource
  vendor_explicit_ask vendor_default gui_prompt : PermissionEvaluationSource

pub record PermissionEvaluation : Type 0 where
  pub effect : Option PermissionEffect
  pub source : PermissionEvaluationSource

unfoldable pub specificity : PermissionRuleScope → ℕ
specificity (request _) = 5
specificity (session _) = 4
specificity (project _) = 3
specificity (cli _) = 2
specificity global = 1

unfoldable pub scope_matches : PermissionRuleScope → PermissionRequestContext → Bool
scope_matches (request id) r = id == r.request_id
scope_matches (session id) r = id == r.session_id
scope_matches (project id) r = id == r.project_id
scope_matches (cli agent) r = agent_eq agent r.agent
scope_matches global r = true

abbrev pub option_eq : Option String → String → Bool
option_eq none expected = false
option_eq (some name) expected = str_eq name expected

-- `Regex::new(pattern)`, and `is_match` of what it returns.
abbrev pub Regex : Type 0
Regex = String → Option (String → Bool)

abbrev tool_matches : Option String → Option String → Bool
tool_matches none actual = true
tool_matches (some expected) actual = option_eq actual expected

abbrev pattern_matches : Option (String → Bool) → String → Bool
pattern_matches none command = false
pattern_matches (some is_match) command = is_match command

abbrev command_matches : Regex → Option String → Option String → Bool
command_matches regex none command = true
command_matches regex (some pattern) none = false
command_matches regex (some pattern) (some command) = pattern_matches (regex pattern) command

abbrev pub is_empty {ℓ} : {A : Type ℓ} → List A → Bool
is_empty [] = true
is_empty (x ∷ xs) = false

abbrev pub paths_match : Option FilePath → List FilePath → PermissionEffect → Bool
paths_match none paths effect = true
paths_match (some prefix) paths allow =
    not (is_empty paths) && all (λ path. path_starts_with path prefix) paths
paths_match (some prefix) paths deny =
    not (is_empty paths) && any (λ path. path_starts_with path prefix) paths

-- The early returns of `false` are the conjuncts, in the order of the source.
unfoldable pub matcher_matches :
    Regex → PermissionRuleMatcher → PermissionRequestContext → PermissionEffect → Bool
matcher_matches regex m r effect =
    tool_matches m.tool_name r.tool_name
    && (command_matches regex m.command_regex r.command
        && paths_match m.canonical_path_prefix r.canonical_paths effect)

-- `expires_at.is_none_or(|expires_at| expires_at > now)`
abbrev pub is_live : Option ℕ → ℕ → Bool
is_live none now = true
is_live (some expires_at) now = ltb now expires_at

-- The four filters of `best_matching_rule`, one after the other.
unfoldable pub is_candidate :
    Regex → PermissionRequestContext → ℕ → PermissionEffect → PermissionRule → Bool
unfolding matcher_matches scope_matches
is_candidate regex r now effect rule =
    effect_eq rule.effect effect
    && (is_live rule.expires_at now
        && (scope_matches rule.scope r && matcher_matches regex rule.matcher r effect))

-- `Iterator::max_by_key`: of several maxima the last one.
abbrev max_step : Option PermissionRule → PermissionRule → Option PermissionRule
max_step none rule = some rule
max_step (some best) rule =
    if leb (specificity best.scope) (specificity rule.scope) then some rule else some best

unfoldable pub max_by_specificity :
    Option PermissionRule → List PermissionRule → Option PermissionRule
max_by_specificity best [] = best
max_by_specificity best (rule ∷ rules) = max_by_specificity (max_step best rule) rules

unfoldable pub best_matching_rule :
    Regex
    → PermissionRequestContext
    → List PermissionRule
    → ℕ
    → PermissionEffect
    → Option PermissionRule
unfolding max_by_specificity
best_matching_rule regex r rules now effect =
    max_by_specificity none (retain (is_candidate regex r now effect) rules)

abbrev evaluation : PermissionEffect → PermissionEvaluationSource → PermissionEvaluation
evaluation effect source = record { effect = some effect; source = source }

abbrev default_evaluation : VendorDefaultDecision → PermissionEvaluation
default_evaluation allow = evaluation PermissionEffect.allow vendor_default
default_evaluation deny = evaluation PermissionEffect.deny vendor_default
default_evaluation ask = record { effect = none; source = gui_prompt }

abbrev allow_stage : Option PermissionRule → VendorPermissionPolicy → PermissionEvaluation
allow_stage (some rule) vendor = evaluation PermissionEffect.allow (maestro_rule rule.id)
allow_stage none vendor = default_evaluation vendor.default_decision

abbrev deny_stage :
    Option PermissionRule → Option PermissionRule → VendorPermissionPolicy → PermissionEvaluation
deny_stage (some rule) allowing vendor = evaluation PermissionEffect.deny (maestro_rule rule.id)
deny_stage none allowing vendor =
    if vendor.explicitly_asks
    then record { effect = none; source = vendor_explicit_ask }
    else allow_stage allowing vendor

unfoldable pub evaluate_permission :
    Regex
    → PermissionRequestContext
    → VendorPermissionPolicy
    → List PermissionRule
    → ℕ
    → PermissionEvaluation
evaluate_permission regex r vendor rules now =
    if vendor.admin_or_vendor_denied
    then evaluation PermissionEffect.deny vendor_or_admin_deny
    else deny_stage (best_matching_rule regex r rules now PermissionEffect.deny)
        (best_matching_rule regex r rules now PermissionEffect.allow) vendor
