-- ===== src/Adapter/Catalog/Valid.antt =====
-- What a catalog that passes `validate` of crates/maestro-adapter/src/contract.rs is.
use maestro_app.Prelude.{
  ◌≡◌, ◌↔◌, refl, inl, inr, ◌⊎◌, String, Bool, true, false, not, ◌&&◌, List, [], ◌∷◌, arith, str_eq,
  any, Result, ok, ◌>>◌, >>=_ok, All, All-map, Pairwise, string_eq, contains, with_key,
  contains-with_key,
}
use maestro_app.Adapter.Catalog.{
  CapabilityCatalogError, empty_adapter_id, empty_cli_version, empty_capability_id,
  duplicate_capability, missing_tested_version_range, missing_unavailable_reason, missing_fallback,
  missing_scope, missing_operation, invalid_operation_scope, missing_input_schema,
  invalid_executable, AdapterCapability, CapabilityCatalog, is_available, requires_explicit_warning,
  is_blank, is_some, is_empty, reject, has_wrong_scope, is_generic, validate_capability,
  validate_capabilities, validate_catalog,
}

-- A capability as the daemon and the desktop may rely on it.
abbrev pub IsComplete : AdapterCapability → Type 0
IsComplete c =
    (is_some c.descriptor.tested_version_range ≡ true)
    × ((is_available c.descriptor ≡ true) ⊎ (is_some c.descriptor.unavailable_reason ≡ true))
    × ((requires_explicit_warning c.descriptor ≡ false) ⊎ (is_some c.descriptor.fallback ≡ true))
    × (is_empty c.scopes ≡ false)
    × (is_blank c.operation ≡ false)
    × (has_wrong_scope c ≡ false)
    × ((is_generic c ≡ false) ⊎ (is_some c.input_schema ≡ true))
    × (any is_blank c.required_executables ≡ false)

reject_ok : (b : Bool) (failure : CapabilityCatalogError) → reject b failure ≡ ok tt → b ≡ false
reject_ok true failure e = cc
reject_ok false failure e = refl

-- A check that was passed, and the checks after it.
passed :
    (b : Bool) (failure : CapabilityCatalogError) (rest : Result (Unit {0}) CapabilityCatalogError)
    → (reject b failure >> rest) ≡ ok tt
    → (b ≡ false) × (rest ≡ ok tt)
passed true failure rest e = cc
passed false failure rest e = (refl, e)

both : (a b : Bool) → (not a && not b) ≡ false → (a ≡ true) ⊎ (b ≡ true)
both true b e = inl refl
both false b e = inr (ground arith)

either : (a b : Bool) → (a && not b) ≡ false → (a ≡ false) ⊎ (b ≡ true)
either false b e = inl refl
either true b e = inr (ground arith)

validate_capability-IsComplete :
    (c : AdapterCapability) → validate_capability c ≡ ok tt → IsComplete c
unfolding validate_capability
validate_capability-IsComplete c e0 =
    let (range, e1) =
      passed (not (is_some c.descriptor.tested_version_range))
        (missing_tested_version_range c.descriptor.id) _ e0 in
    let (reason, e2) =
      passed (not (is_available c.descriptor) && not (is_some c.descriptor.unavailable_reason))
        (missing_unavailable_reason c.descriptor.id) _ e1 in
    let (fallback, e3) =
      passed (requires_explicit_warning c.descriptor && not (is_some c.descriptor.fallback))
        (missing_fallback c.descriptor.id) _ e2 in
    let (scope, e4) = passed (is_empty c.scopes) (missing_scope c.descriptor.id) _ e3 in
    let (operation, e5) = passed (is_blank c.operation) (missing_operation c.descriptor.id) _ e4 in
    let (fits, e6) = passed (has_wrong_scope c) (invalid_operation_scope c.descriptor.id) _ e5 in
    let (schema, e7) =
      passed (is_generic c && not (is_some c.input_schema)) (missing_input_schema c.descriptor.id) _
        e6 in
    (
      ground (arith, range),
      both (is_available c.descriptor) (is_some c.descriptor.unavailable_reason) reason,
      either (requires_explicit_warning c.descriptor) (is_some c.descriptor.fallback) fallback,
      scope,
      operation,
      fits,
      either (is_generic c) (is_some c.input_schema) schema,
      reject_ok (any is_blank c.required_executables) (invalid_executable c.descriptor.id) e7,
    )

both_back : (a b : Bool) → (a ≡ true) ⊎ (b ≡ true) → (not a && not b) ≡ false
both_back a b (inl e) = rw e refl
both_back a b (inr e) = rw e (ground arith)

either_back : (a b : Bool) → (a ≡ false) ⊎ (b ≡ true) → (a && not b) ≡ false
either_back a b (inl e) = rw e refl
either_back a b (inr e) = rw e (ground arith)

IsComplete-validate_capability :
    (c : AdapterCapability) → IsComplete c → validate_capability c ≡ ok tt
unfolding validate_capability
IsComplete-validate_capability c (range, reason, fallback, scope, operation, fits, schema, names) =
    rw
      (
        range,
        both_back (is_available c.descriptor) (is_some c.descriptor.unavailable_reason) reason,
        either_back (requires_explicit_warning c.descriptor) (is_some c.descriptor.fallback)
            fallback,
        scope,
        operation,
        fits,
        either_back (is_generic c) (is_some c.input_schema) schema,
        names,
      )
      refl

-- Two capabilities with different identifiers.
abbrev pub Differ : AdapterCapability → AdapterCapability → Type 0
Differ a b = str_eq a.descriptor.id b.descriptor.id ≡ false

abbrev IsNew : List String → AdapterCapability → Type 0
IsNew seen c = contains seen c.descriptor.id ≡ false

abbrev HasId : AdapterCapability → Type 0
HasId c = is_blank c.descriptor.id ≡ false

IsNew-after :
    (seen : List String) (c d : AdapterCapability)
    → IsNew (with_key c.descriptor.id seen) d ↔ (IsNew seen d × Differ c d)
IsNew-after seen c d = ground (arith, contains-with_key seen c.descriptor.id d.descriptor.id)

all-IsNew_after :
    (seen : List String) (c : AdapterCapability) (capabilities : List AdapterCapability)
    → All (IsNew (with_key c.descriptor.id seen)) capabilities
    → All (IsNew seen) capabilities × All (Differ c) capabilities
all-IsNew_after seen c capabilities h = (
  All-map _ (IsNew seen) capabilities (λ d n. ((IsNew-after seen c d).0 n).0) h,
  All-map _ (Differ c) capabilities (λ d n. ((IsNew-after seen c d).0 n).1) h,
)

all-IsNew_back :
    (seen : List String) (c : AdapterCapability) (capabilities : List AdapterCapability)
    → All (IsNew seen) capabilities
    → All (Differ c) capabilities
    → All (IsNew (with_key c.descriptor.id seen)) capabilities
all-IsNew_back seen c [] h d = tt
all-IsNew_back seen c (e ∷ capabilities) h d =
    ((IsNew-after seen c e).1 (h.0, d.0), all-IsNew_back seen c capabilities h.1 d.1)

-- What holds of the capabilities of a valid catalog.
abbrev pub AreValid : List AdapterCapability → Type 0
AreValid capabilities =
    All HasId capabilities × All IsComplete capabilities × Pairwise Differ capabilities

validate_capabilities-AreValid :
    (seen : List String) (capabilities : List AdapterCapability)
    → validate_capabilities seen capabilities ≡ ok tt
    → All (IsNew seen) capabilities × AreValid capabilities
unfolding validate_capabilities
validate_capabilities-AreValid seen [] e = (tt, (tt, tt, tt))
validate_capabilities-AreValid seen (c ∷ capabilities) e =
    let (named, e1) = passed (is_blank c.descriptor.id) empty_capability_id _ e in
    let (new, e2) =
      passed (contains seen c.descriptor.id) (duplicate_capability c.descriptor.id) _ e1 in
    let (unit, complete, e3) = >>=_ok (validate_capability c) _ e2 in
    let (fresh, (ids, all_complete, distinct)) =
      validate_capabilities-AreValid (with_key c.descriptor.id seen) capabilities e3 in
    let (later, differ) = all-IsNew_after seen c capabilities fresh in
    (
      (new, later),
      ((named, ids), (validate_capability-IsComplete c complete, all_complete), (differ, distinct)),
    )

AreValid-validate_capabilities :
    (seen : List String) (capabilities : List AdapterCapability)
    → All (IsNew seen) capabilities
    → AreValid capabilities
    → validate_capabilities seen capabilities ≡ ok tt
unfolding validate_capabilities
AreValid-validate_capabilities seen [] h v = refl
AreValid-validate_capabilities seen (c ∷ capabilities) h (ids, complete, distinct) =
    rw (ids.0, h.0, IsComplete-validate_capability c complete.0)
      (AreValid-validate_capabilities (with_key c.descriptor.id seen) capabilities
        (all-IsNew_back seen c capabilities h.1 distinct.0) (ids.1, complete.1, distinct.1))

-- A catalog with its two names.
abbrev pub IsValid : CapabilityCatalog → Type 0
IsValid catalog =
    (is_blank catalog.adapter_id ≡ false)
    × (is_blank catalog.cli_version ≡ false)
    × AreValid catalog.capabilities

none_seen : (capabilities : List AdapterCapability) → All (IsNew []) capabilities
unfolding contains
none_seen [] = tt
none_seen (c ∷ capabilities) = (refl, none_seen capabilities)

-- A catalog passes `validate` exactly when its adapter and its version are named, every capability has
-- a name of its own, a tested version range, an explanation if it is unavailable, a fallback if it needs
-- a warning, a scope, an operation whose scopes fit it, a schema if the operation is generic, and no
-- blank executable.
pub validate_catalog_iff :
    (catalog : CapabilityCatalog) → (validate_catalog catalog ≡ ok tt) ↔ IsValid catalog
unfolding validate_catalog
validate_catalog_iff catalog = (
  λ e0.
      let (adapter, e1) = passed (is_blank catalog.adapter_id) empty_adapter_id _ e0 in
      let (version, e2) = passed (is_blank catalog.cli_version) empty_cli_version _ e1 in
      let (new, valid) = validate_capabilities-AreValid [] catalog.capabilities e2 in
      (adapter, version, valid),
  λ (adapter, version, valid).
      rw (adapter, version)
        (AreValid-validate_capabilities [] catalog.capabilities (none_seen catalog.capabilities)
          valid),
)
