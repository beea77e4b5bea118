-- ===== src/Examples/Permission.antt =====
-- crates/maestro-domain/src/permission.rs: its unit tests, and the theorems at concrete rules.
use maestro_app.Prelude.{
  ◌≡◌, ◌↔◌, ◌⊎◌, ◌≤◌, ◌<◌, refl, true, false, none, some, List, [], ◌∷◌, ◌++◌, All, any, str_eq,
}
use maestro_app.Domain.Permission.{
  codex, FilePath, PermissionEffect, session, request, global, PermissionRuleMatcher,
  PermissionRule, PermissionRequestContext, VendorPermissionPolicy, VendorDefaultDecision,
  maestro_rule, Regex, specificity, is_candidate, path_starts_with, best_matching_rule,
  evaluate_permission,
}
use maestro_app.Domain.Permission.Overlay.{path_starts_with_iff, evaluate_permission-allow, applies}
use maestro_app.Domain.Permission.Selection.{
  best_matching_rule-some, best_matching_rule-none, candidates,
}
use maestro_app.Domain.Permission.Creation.{PermissionRuleDraft}

-- A regular expression that matches its own text only.
abbrev literal : Regex
literal pattern = some (str_eq pattern)

abbrev repo : FilePath
repo = "workspace" ∷ "repo" ∷ []

abbrev asked : PermissionRequestContext
asked = record {
  request_id = 1;
  session_id = 2;
  project_id = 3;
  agent = codex;
  tool_name = some "shell";
  command = some "git status";
  canonical_paths = ("workspace" ∷ "repo" ∷ "src" ∷ []) ∷ [];
  dangerous = false;
}

abbrev anything : PermissionRuleMatcher
anything = record { tool_name = none; command_regex = none; canonical_path_prefix = none }

abbrev within_repo : PermissionRuleMatcher
within_repo = record {
  tool_name = some "shell";
  command_regex = some "git status";
  canonical_path_prefix = some repo;
}

abbrev session_allow : PermissionRule
session_allow = record {
  id = "matching";
  effect = PermissionEffect.allow;
  scope = session 2;
  matcher = within_repo;
  expires_at = none;
  created_at = 0;
  creation_source = "test";
}

-- Expired at time 10.
abbrev request_deny : PermissionRule
request_deny = record {
  id = "expired";
  effect = PermissionEffect.deny;
  scope = request 1;
  matcher = anything;
  expires_at = some 9;
  created_at = 0;
  creation_source = "test";
}

abbrev global_allow : PermissionRule
global_allow = record session_allow { id = "global"; scope = global; matcher = anything }

abbrev rules : List PermissionRule
rules = request_deny ∷ global_allow ∷ session_allow ∷ []

abbrev asking : VendorPermissionPolicy
asking = record {
  admin_or_vendor_denied = false;
  explicitly_asks = false;
  default_decision = VendorDefaultDecision.ask;
}

matching_rule_wins :
    evaluate_permission literal asked asking rules 10
    ≡ record { effect = some PermissionEffect.allow; source = maestro_rule "matching" }
unfolding evaluate_permission best_matching_rule is_candidate path_starts_with specificity
matching_rule_wins = refl

vendor_deny_wins :
    (evaluate_permission literal asked
      (record asking { admin_or_vendor_denied = true })
      rules
      10).effect
    ≡ some PermissionEffect.deny
unfolding evaluate_permission
vendor_deny_wins = refl

evaluate_permission-allow_example :
    ((evaluate_permission literal asked asking rules 10).effect ≡ some PermissionEffect.allow) ↔ (
      (asking.admin_or_vendor_denied ≡ false)
      × (applies literal asked rules 10 PermissionEffect.deny ≡ false)
      × (asking.explicitly_asks ≡ false)
      × ((applies literal asked rules 10 PermissionEffect.allow ≡ true)
          ⊎ (asking.default_decision ≡ VendorDefaultDecision.allow)))
evaluate_permission-allow_example = evaluate_permission-allow literal asked rules 10 asking

best_matching_rule-some_example :
    (before after : List PermissionRule) × (rules ≡ before ++ session_allow ∷ after)
    × (is_candidate literal asked 10 PermissionEffect.allow session_allow ≡ true)
    × All
        (λ x. specificity x.scope ≤ specificity session_allow.scope)
        (candidates literal asked 10 PermissionEffect.allow before)
    × All
        (λ x. specificity x.scope < specificity session_allow.scope)
        (candidates literal asked 10 PermissionEffect.allow after)
unfolding best_matching_rule is_candidate path_starts_with specificity
best_matching_rule-some_example =
    best_matching_rule-some literal asked 10 PermissionEffect.allow rules session_allow refl

best_matching_rule-none_example :
    any (is_candidate literal asked 10 PermissionEffect.deny) rules ≡ false
unfolding best_matching_rule is_candidate
best_matching_rule-none_example =
    best_matching_rule-none literal asked 10 PermissionEffect.deny rules refl

path_starts_with_iff_example :
    (path_starts_with ("workspace" ∷ "repo2" ∷ []) repo ≡ true)
    ↔ ((rest : FilePath) × ("workspace" ∷ "repo2" ∷ [] ≡ repo ++ rest))
path_starts_with_iff_example = path_starts_with_iff ("workspace" ∷ "repo2" ∷ []) repo

abbrev draft : PermissionRuleDraft
draft = record {
  id = "global-dangerous";
  effect = PermissionEffect.allow;
  scope = global;
  matcher = anything;
  expires_at = none;
  creation_source = "dialog";
  dangerous = true;
}

abbrev stored : PermissionRule
stored = record global_allow {
  id = "global-dangerous";
  created_at = 10;
  creation_source = "dialog";
}
