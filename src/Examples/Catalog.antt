-- ===== src/Examples/Catalog.antt =====
-- The catalog of capabilities (crates/maestro-adapter/src/contract.rs) at concrete entries.
use maestro_app.Prelude.{
  ◌≡◌, ◌↔◌, refl, false, none, some, [], ◌∷◌, String, ok, err, All, contains, with_key, string_eq,
}
use maestro_app.Adapter.Catalog.{
  structured, stable, read_only, session, application, AdapterCapability, CapabilityCatalog,
  duplicate_capability, invalid_operation_scope, validate_catalog, adapter_capability,
}
use maestro_app.Adapter.Catalog.Valid.{IsValid, validate_catalog_iff}
use maestro_app.Adapter.Catalog.Lookup.{validate_catalog-adapter_capability}
use maestro_app.Redaction.Json.{null}

abbrev entry : String → AdapterCapability
entry name = record {
  descriptor = record {
    id = name;
    label = "A capability";
    description = "What it does";
    support = structured;
    maturity = stable;
    security_class = read_only;
    tested_version_range = some "1.x";
    requires_authentication = false;
    fallback = none;
    unavailable_reason = none;
  };
  scopes = session ∷ [];
  operation = "invoke_feature";
  input_schema = some null;
  required_executables = "git" ∷ [];
}

abbrev catalog : CapabilityCatalog
catalog = record {
  adapter_id = "fake";
  cli_version = "1.0";
  capabilities = entry "review" ∷ entry "compact" ∷ [];
}

catalog_valid : validate_catalog catalog ≡ ok tt
unfolding validate_catalog contains with_key
catalog_valid = refl

twice_refused :
    validate_catalog (record catalog { capabilities = entry "review" ∷ entry "review" ∷ [] })
    ≡ err (duplicate_capability "review")
unfolding validate_catalog contains with_key
twice_refused = refl

global_refused :
    validate_catalog
      (record catalog { capabilities = record (entry "review") { scopes = application ∷ [] } ∷ [] })
    ≡ err (invalid_operation_scope "review")
unfolding validate_catalog contains with_key
global_refused = refl

validate_catalog_iff_example : (validate_catalog catalog ≡ ok tt) ↔ IsValid catalog
validate_catalog_iff_example = validate_catalog_iff catalog

validate_catalog-adapter_capability_example :
    All
      (λ c. adapter_capability catalog c.descriptor.id ≡ some c)
      (entry "review" ∷ entry "compact" ∷ [])
validate_catalog-adapter_capability_example =
    validate_catalog-adapter_capability catalog catalog_valid
