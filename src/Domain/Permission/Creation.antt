-- ===== src/Domain/Permission/Creation.antt =====
-- `create_persistent_permission_rule` of crates/maestro-domain/src/permission.rs: rules that last.
use maestro_app.Prelude.{
  ℕ, ◌≡◌, ◌↔◌, refl, String, Bool, true, false, ◌&&◌, not, Option, none, some, arith, if◌then◌else◌,
  Result, ok, err,
}
use maestro_app.Domain.Permission.{
  PermissionEffect, PermissionRuleScope, global, PermissionRuleMatcher, PermissionRule,
}

pub record PermissionRuleDraft : Type 0 where
  pub id : String
  pub effect : PermissionEffect
  pub scope : PermissionRuleScope
  pub matcher : PermissionRuleMatcher
  pub expires_at : Option ℕ
  pub creation_source : String
  pub dangerous : Bool

pub data RuleCreationIntent : Type 0 where
  this_request_only : RuleCreationIntent
  remember : (global_confirmed dangerous_confirmed : Bool) → RuleCreationIntent

pub data PermissionRuleCreationError : Type 0 where
  global_confirmation_required dangerous_confirmation_required : PermissionRuleCreationError

abbrev pub is_global : PermissionRuleScope → Bool
is_global global = true
is_global _ = false

unfoldable pub create_persistent_permission_rule :
    PermissionRuleDraft
    → RuleCreationIntent
    → ℕ
    → Result (Option PermissionRule) PermissionRuleCreationError
create_persistent_permission_rule draft this_request_only now = ok none
create_persistent_permission_rule draft (remember global_confirmed dangerous_confirmed) now =
    if is_global draft.scope && not global_confirmed
    then err global_confirmation_required
    else if draft.dangerous && not dangerous_confirmed
    then err dangerous_confirmation_required
    else ok (
        some (record {
          id = draft.id;
          effect = draft.effect;
          scope = draft.scope;
          matcher = draft.matcher;
          expires_at = draft.expires_at;
          created_at = now;
          creation_source = draft.creation_source;
        }))

-- A rule is stored exactly if the user chose to remember it, confirmed a global scope a second time
-- and confirmed a dangerous request; the stored rule is the draft with the time of creation.
pub create_persistent_permission_rule_iff :
    (draft : PermissionRuleDraft) (intent : RuleCreationIntent) (now : ℕ) (rule : PermissionRule)
    → (create_persistent_permission_rule draft intent now ≡ ok (some rule)) ↔ (
        (g d : Bool) × (intent ≡ remember g d)
        × (is_global draft.scope ≡ true → g ≡ true)
        × (draft.dangerous ≡ true → d ≡ true)
        × (rule ≡ record {
          id = draft.id;
          effect = draft.effect;
          scope = draft.scope;
          matcher = draft.matcher;
          expires_at = draft.expires_at;
          created_at = now;
          creation_source = draft.creation_source;
        }))
unfolding create_persistent_permission_rule
create_persistent_permission_rule_iff draft this_request_only now rule = (λ h. cc, λ h. cc h.2)
create_persistent_permission_rule_iff draft (remember g d) now rule =
    (λ h. (g, d, refl, ground arith, ground arith, ground arith), λ h. ground arith)
