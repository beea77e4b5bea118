-- ===== src/Domain/Permission/Selection.antt =====
-- `best_matching_rule` of crates/maestro-domain/src/permission.rs: which rule is chosen.
use maestro_app.Prelude.{
  ℕ, ◌≤◌, ◌<◌, ◌≡◌, refl, ap, subst, ◌⊎◌, inl, inr, true, false, none, some, List, [], ◌∷◌, ◌++◌,
  arith, All, any, retain, leb, Bool-cases, retain-split, any-retain,
}
use maestro_app.Domain.Permission.{
  Regex, PermissionRule, PermissionRequestContext, PermissionEffect, specificity, is_candidate,
  max_by_specificity, best_matching_rule,
}

abbrev rank : PermissionRule → ℕ
rank rule = specificity rule.scope

-- `best` stands in `rules`, no rule before it ranks higher, and every rule after it ranks lower.
abbrev IsLastMax : PermissionRule → List PermissionRule → Type 0
IsLastMax best rules =
    (before after : List PermissionRule) × (rules ≡ before ++ best ∷ after)
    × All (λ x. rank x ≤ rank best) before
    × All (λ x. rank x < rank best) after

-- The fold from a best rule so far.
max_from :
    (b : PermissionRule) (xs : List PermissionRule)
    → (max_by_specificity (some b) xs ≡ some b) × All (λ x. rank x < rank b) xs
      ⊎ ((best : PermissionRule) × (max_by_specificity (some b) xs ≡ some best)
          × (rank b ≤ rank best)
          × IsLastMax best xs)
unfolding max_by_specificity
max_from b [] = inl (refl, tt)
max_from b (x ∷ xs) = elim (Bool-cases (leb (rank b) (rank x))) [
  | inl up ↦
      rw (up, max_by_specificity)
        (inr (elim (max_from x xs) [
          | inl (e, lower) ↦ (x, e, ground arith, ([], xs, refl, tt, lower))
          | inr (best, e, le, (before, after, split, upto, lower)) ↦
              (best, e, ground arith, (x ∷ before, after, ap (◌∷◌ x) split, (le, upto), lower))
        ]))
  | inr down ↦
      rw (down, max_by_specificity)
        (elim (max_from b xs) [
          | inl (e, lower) ↦ inl (e, (ground arith, lower))
          | inr (best, e, le, (before, after, split, upto, lower)) ↦
              inr (best, e, le, (x ∷ before, after, ap (◌∷◌ x) split, (ground arith, upto), lower))
        ])
]

max_of_some :
    (xs : List PermissionRule) (best : PermissionRule)
    → max_by_specificity none xs ≡ some best
    → IsLastMax best xs
unfolding max_by_specificity
max_of_some [] best e = cc
max_of_some (x ∷ xs) best e = elim (max_from x xs) [
  | inl (kept, lower) ↦
      let same : x ≡ best = cc in subst (λ b. IsLastMax b (x ∷ xs)) same ([], xs, refl, tt, lower)
  | inr (top, found, le, (before, after, split, upto, lower)) ↦
      let same : top ≡ best = cc in
      subst (λ b. IsLastMax b (x ∷ xs)) same
        (x ∷ before, after, ap (◌∷◌ x) split, (le, upto), lower)
]

max_of_none : (xs : List PermissionRule) → max_by_specificity none xs ≡ none → xs ≡ []
unfolding max_by_specificity
max_of_none [] e = refl
max_of_none (x ∷ xs) e = elim (max_from x xs) [
  | inl (kept, lower) ↦ cc
  | inr (top, found, le, last) ↦ cc
]

module _ (regex : Regex) (r : PermissionRequestContext) (now : ℕ) (effect : PermissionEffect) where
  abbrev pub candidates : List PermissionRule → List PermissionRule
  candidates = retain (is_candidate regex r now effect)

  -- The chosen rule is one of the rules given, of the wanted effect, live, in scope and matched;
  -- no such rule before it in the list is more specific, and each such rule after it is less so.
  pub best_matching_rule-some :
      (rules : List PermissionRule) (best : PermissionRule)
      → best_matching_rule regex r rules now effect ≡ some best
      → (before after : List PermissionRule) × (rules ≡ before ++ best ∷ after)
        × (is_candidate regex r now effect best ≡ true)
        × All (λ x. specificity x.scope ≤ specificity best.scope) (candidates before)
        × All (λ x. specificity x.scope < specificity best.scope) (candidates after)
  unfolding best_matching_rule
  best_matching_rule-some rules best e =
      let (ls, rs, split, upto, lower) = max_of_some (candidates rules) best e in
      let (before, after, whole, found, left, right) =
        retain-split (is_candidate regex r now effect) rules ls best rs split in
      (before, after, whole, found, rw left upto, rw right lower)

  -- No rule is chosen only if none of the rules is a candidate.
  pub best_matching_rule-none :
      (rules : List PermissionRule)
      → best_matching_rule regex r rules now effect ≡ none
      → any (is_candidate regex r now effect) rules ≡ false
  unfolding best_matching_rule
  best_matching_rule-none rules e =
      any-retain (is_candidate regex r now effect) rules (max_of_none (candidates rules) e)
