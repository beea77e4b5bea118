-- ===== src/Adapter/Catalog/Lookup.antt =====
-- Looking a capability up by its identifier (crates/maestro-adapter/src/contract.rs).
use maestro_app.Prelude.{◌≡◌, refl, some, List, [], ◌∷◌, eq_refl, ok, All, Pairwise}
use maestro_app.Adapter.Catalog.{
  AdapterCapability, CapabilityCatalog, validate_catalog, find_capability, adapter_capability,
}
use maestro_app.Adapter.Catalog.Valid.{Differ, validate_catalog_iff}

abbrev IsFound : List AdapterCapability → AdapterCapability → Type 0
IsFound capabilities c = find_capability capabilities c.descriptor.id ≡ some c

IsFound-later :
    (c : AdapterCapability) (capabilities later : List AdapterCapability)
    → All (Differ c) later
    → All (IsFound capabilities) later
    → All (IsFound (c ∷ capabilities)) later
unfolding find_capability
IsFound-later c capabilities [] differ h = tt
IsFound-later c capabilities (d ∷ later) differ h =
    (rw (differ.0) h.0, IsFound-later c capabilities later differ.1 h.1)

all-IsFound :
    (capabilities : List AdapterCapability)
    → Pairwise Differ capabilities
    → All (IsFound capabilities) capabilities
unfolding find_capability
all-IsFound [] h = tt
all-IsFound (c ∷ capabilities) h = (
  rw (eq_refl c.descriptor.id) refl,
  IsFound-later c capabilities capabilities h.0 (all-IsFound capabilities h.1),
)

-- In a catalog that passes `validate`, looking up the identifier of any of its capabilities gives
-- that capability.
pub validate_catalog-adapter_capability :
    (catalog : CapabilityCatalog)
    → validate_catalog catalog ≡ ok tt
    → All (λ c. adapter_capability catalog c.descriptor.id ≡ some c) catalog.capabilities
unfolding adapter_capability
validate_catalog-adapter_capability catalog e =
    let (adapter, version, (ids, complete, distinct)) = (validate_catalog_iff catalog).0 e in
    all-IsFound catalog.capabilities distinct
