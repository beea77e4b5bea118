-- ===== src/Adapter/Catalog.antt =====
-- `CapabilityCatalog` of crates/maestro-adapter/src/contract.rs, and the descriptors of
-- crates/maestro-domain/src/capability.rs that it lists.
pub mod Valid
pub mod Lookup
use maestro_app.Prelude.{
  ℕ, String, Bool, true, false, not, ◌&&◌, ◌||◌, Option, none, some, List, [], ◌∷◌, ◌==◌, str_eq,
  if◌then◌else◌, length, any, codes, trim, Result, ok, err, ◌>>=◌, ◌>>◌, string_eq, contains,
  with_key,
}
use maestro_app.Redaction.Json.{Json}

pub data CapabilitySupport : Type 0 where
  structured : CapabilitySupport
  cli_managed : CapabilitySupport
  pty_only : CapabilitySupport
  maestro_emulated : CapabilitySupport
  unavailable : CapabilitySupport

pub data CapabilityMaturity : Type 0 where
  stable : CapabilityMaturity
  experimental : CapabilityMaturity

pub data SecurityClass : Type 0 where
  read_only : SecurityClass
  mutating : SecurityClass
  sensitive : SecurityClass
  dangerous : SecurityClass

pub record CapabilityDescriptor : Type 0 where
  pub id : String
  pub label : String
  pub description : String
  pub support : CapabilitySupport
  pub maturity : CapabilityMaturity
  pub security_class : SecurityClass
  pub tested_version_range : Option String
  pub requires_authentication : Bool
  pub fallback : Option String
  pub unavailable_reason : Option String

abbrev is_supported : CapabilitySupport → Bool
is_supported unavailable = false
is_supported support = true

unfoldable pub is_available : CapabilityDescriptor → Bool
is_available descriptor = is_supported descriptor.support

abbrev is_experimental : CapabilityMaturity → Bool
is_experimental experimental = true
is_experimental stable = false

abbrev is_dangerous : SecurityClass → Bool
is_dangerous dangerous = true
is_dangerous class = false

unfoldable pub requires_explicit_warning : CapabilityDescriptor → Bool
requires_explicit_warning descriptor =
    is_experimental descriptor.maturity || is_dangerous descriptor.security_class

pub data CapabilityScope : Type 0 where
  application : CapabilityScope
  project : CapabilityScope
  session : CapabilityScope

abbrev pub is_session : CapabilityScope → Bool
is_session session = true
is_session scope = false

pub record AdapterCapability : Type 0 where
  pub descriptor : CapabilityDescriptor
  pub scopes : List CapabilityScope
  pub operation : String
  pub input_schema : Option Json
  pub required_executables : List String

pub record CapabilityCatalog : Type 0 where
  pub adapter_id : String
  pub cli_version : String
  pub capabilities : List AdapterCapability

pub data CapabilityCatalogError : Type 0 where
  empty_adapter_id : CapabilityCatalogError
  empty_cli_version : CapabilityCatalogError
  empty_capability_id : CapabilityCatalogError
  duplicate_capability : String → CapabilityCatalogError
  missing_tested_version_range : String → CapabilityCatalogError
  missing_unavailable_reason : String → CapabilityCatalogError
  missing_fallback : String → CapabilityCatalogError
  missing_scope : String → CapabilityCatalogError
  missing_operation : String → CapabilityCatalogError
  invalid_operation_scope : String → CapabilityCatalogError
  missing_input_schema : String → CapabilityCatalogError
  invalid_executable : String → CapabilityCatalogError

-- `trim().is_empty()`.
unfoldable pub is_blank : String → Bool
unfolding trim
is_blank text = length (trim (codes text)) == 0

module _ {ℓ} {A : Type ℓ} where
  abbrev pub is_some : Option A → Bool
  is_some none = false
  is_some (some value) = true

  abbrev pub is_empty : List A → Bool
  is_empty [] = true
  is_empty (x ∷ xs) = false

-- An error when the condition holds.
abbrev pub reject : Bool → CapabilityCatalogError → Result (Unit {0}) CapabilityCatalogError
reject true failure = err failure
reject false failure = ok tt

-- A generic operation whose scopes do not fit it.
unfoldable pub has_wrong_scope : AdapterCapability → Bool
has_wrong_scope capability =
    (str_eq capability.operation "invoke_feature" && not (any is_session capability.scopes))
    || (str_eq capability.operation "invoke_global_feature" && any is_session capability.scopes)

unfoldable pub is_generic : AdapterCapability → Bool
is_generic capability =
    str_eq capability.operation "invoke_feature"
    || str_eq capability.operation "invoke_global_feature"

-- The checks of one round of the loop after the identifier was inserted.
unfoldable pub validate_capability : AdapterCapability → Result (Unit {0}) CapabilityCatalogError
unfolding is_available requires_explicit_warning is_blank has_wrong_scope is_generic
validate_capability c = do
  reject (not (is_some c.descriptor.tested_version_range))
      (missing_tested_version_range c.descriptor.id)
  reject (not (is_available c.descriptor) && not (is_some c.descriptor.unavailable_reason))
      (missing_unavailable_reason c.descriptor.id)
  reject (requires_explicit_warning c.descriptor && not (is_some c.descriptor.fallback))
      (missing_fallback c.descriptor.id)
  reject (is_empty c.scopes) (missing_scope c.descriptor.id)
  reject (is_blank c.operation) (missing_operation c.descriptor.id)
  reject (has_wrong_scope c) (invalid_operation_scope c.descriptor.id)
  reject (is_generic c && not (is_some c.input_schema)) (missing_input_schema c.descriptor.id)
  reject (any is_blank c.required_executables) (invalid_executable c.descriptor.id)

-- The loop, with the identifiers seen so far.
unfoldable pub validate_capabilities :
    List String → List AdapterCapability → Result (Unit {0}) CapabilityCatalogError
unfolding is_blank validate_capability
validate_capabilities identifiers [] = ok tt
validate_capabilities identifiers (c ∷ capabilities) = do
  reject (is_blank c.descriptor.id) empty_capability_id
  reject (contains identifiers c.descriptor.id) (duplicate_capability c.descriptor.id)
  validate_capability c
  validate_capabilities (with_key c.descriptor.id identifiers) capabilities

unfoldable pub validate_catalog : CapabilityCatalog → Result (Unit {0}) CapabilityCatalogError
unfolding is_blank validate_capabilities
validate_catalog catalog = do
  reject (is_blank catalog.adapter_id) empty_adapter_id
  reject (is_blank catalog.cli_version) empty_cli_version
  validate_capabilities [] catalog.capabilities

unfoldable pub find_capability : List AdapterCapability → String → Option AdapterCapability
find_capability [] identifier = none
find_capability (c ∷ capabilities) identifier =
    let rest = find_capability capabilities identifier in
    if str_eq c.descriptor.id identifier then some c else rest

unfoldable pub adapter_capability : CapabilityCatalog → String → Option AdapterCapability
unfolding find_capability
adapter_capability catalog identifier = find_capability catalog.capabilities identifier

unfoldable pub capability : CapabilityCatalog → String → Option CapabilityDescriptor
unfolding adapter_capability
capability catalog identifier = elim (adapter_capability catalog identifier) [
  | none ↦ none
  | some found ↦ some found.descriptor
]
