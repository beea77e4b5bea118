-- ===== src/Domain/Permission/Overlay.antt =====
-- `evaluate_permission` of crates/maestro-domain/src/permission.rs: who wins over whom.
use maestro_app.Prelude.{
  ℕ, ◌≡◌, refl, ◌↔◌, ◌⊎◌, inl, inr, Bool, true, false, Option, none, some, List, [], ◌∷◌, ◌++◌,
  arith, any, all, any_middle, Option-cases, eq_iff,
}
use maestro_app.Domain.Permission.{
  Regex, FilePath, PermissionRule, PermissionRequestContext, PermissionEffect,
  PermissionRuleMatcher, VendorPermissionPolicy, VendorDefaultDecision, is_candidate,
  best_matching_rule, evaluate_permission, path_starts_with, matcher_matches, paths_match,
}
use maestro_app.Domain.Permission.Selection.{best_matching_rule-some, best_matching_rule-none}

-- A path starts with a prefix exactly if the prefix and some more components make it up.
pub path_starts_with_iff :
    (path prefix : FilePath)
    → (path_starts_with path prefix ≡ true) ↔ ((rest : FilePath) × (path ≡ prefix ++ rest))
unfolding path_starts_with
path_starts_with_iff path [] = (λ h. (path, refl), λ h. refl)
path_starts_with_iff [] (q ∷ qs) = (λ h. cc, λ h. cc h.1)
path_starts_with_iff (p ∷ ps) (q ∷ qs) =
    let ih = path_starts_with_iff ps qs in
    (
      λ h. let (rest, tail) = ih.0 (ground arith) in (rest, ground (arith, eq_iff p q)),
      λ h. ground (arith, eq_iff p q, ih.1 (h.0, ground arith)),
    )

all-any :
    {A : Type 0} (p : A → Bool) (x : A) (xs : List A)
    → all p (x ∷ xs) ≡ true
    → any p (x ∷ xs) ≡ true
all-any p x xs h = ground arith

paths_match-allow-deny :
    (prefix : Option FilePath) (paths : List FilePath)
    → paths_match prefix paths PermissionEffect.allow ≡ true
    → paths_match prefix paths PermissionEffect.deny ≡ true
paths_match-allow-deny none paths h = refl
paths_match-allow-deny (some prefix) [] h = h
paths_match-allow-deny (some prefix) (x ∷ xs) h =
    all-any (λ path. path_starts_with path prefix) x xs h

-- A matcher that fits an allow rule fits a deny rule too: denying is never the narrower effect.
pub matcher_matches-allow-deny :
    (regex : Regex) (m : PermissionRuleMatcher) (r : PermissionRequestContext)
    → matcher_matches regex m r PermissionEffect.allow ≡ true
    → matcher_matches regex m r PermissionEffect.deny ≡ true
unfolding matcher_matches
matcher_matches-allow-deny regex m r h =
    ground (arith, paths_match-allow-deny m.canonical_path_prefix r.canonical_paths)

module _ (regex : Regex) (r : PermissionRequestContext) (rules : List PermissionRule)
    (now : ℕ) where
  -- Some rule of this effect is live, in scope and matched.
  abbrev pub applies : PermissionEffect → Bool
  applies effect = any (is_candidate regex r now effect) rules

  best-applies :
      (effect : PermissionEffect)
      → ((best_matching_rule regex r rules now effect ≡ none) × (applies effect ≡ false))
        ⊎ ((best : PermissionRule) × (best_matching_rule regex r rules now effect ≡ some best)
            × (applies effect ≡ true))
  best-applies effect = elim (Option-cases (best_matching_rule regex r rules now effect)) [
    | inl e ↦ inl (e, best_matching_rule-none regex r now effect rules e)
    | inr (best, e) ↦
        let (before, after, whole, found, left, right) =
          best_matching_rule-some regex r now effect rules best e in
        inr (best, e, rw whole (any_middle _ before best after found))
  ]

  -- The request is allowed exactly if neither the vendor nor an administrator denies it, no deny
  -- rule applies, the vendor does not ask, and an allow rule applies or the vendor's default allows.
  pub evaluate_permission-allow :
      (vendor : VendorPermissionPolicy)
      → ((evaluate_permission regex r vendor rules now).effect ≡ some PermissionEffect.allow) ↔ (
          (vendor.admin_or_vendor_denied ≡ false)
          × (applies PermissionEffect.deny ≡ false)
          × (vendor.explicitly_asks ≡ false)
          × ((applies PermissionEffect.allow ≡ true)
              ⊎ (vendor.default_decision ≡ VendorDefaultDecision.allow)))
  unfolding evaluate_permission
  evaluate_permission-allow vendor =
      ground (arith, best-applies PermissionEffect.deny, best-applies PermissionEffect.allow)

  -- The request is denied exactly if the vendor or an administrator denies it, a deny rule applies,
  -- or the vendor's default denies it, does not ask, and no allow rule applies.
  pub evaluate_permission-deny :
      (vendor : VendorPermissionPolicy)
      → ((evaluate_permission regex r vendor rules now).effect ≡ some PermissionEffect.deny) ↔ (
          (vendor.admin_or_vendor_denied ≡ true)
          ⊎ (applies PermissionEffect.deny ≡ true)
          ⊎ ((vendor.explicitly_asks ≡ false)
              × (applies PermissionEffect.allow ≡ false)
              × (vendor.default_decision ≡ VendorDefaultDecision.deny)))
  unfolding evaluate_permission
  evaluate_permission-deny vendor =
      ground (arith, best-applies PermissionEffect.deny, best-applies PermissionEffect.allow)
