-- ===== src/Project/Access/Confined.antt =====
-- Where an authorized path lies (crates/maestro-project/src/auth.rs).
use maestro_app.Prelude.{
  ℕ, ◌≡◌, refl, ap, inl, inr, ◌⊎◌, true, Option, none, some, List, [], ◌∷◌, ◌++◌, map, arith,
  length, ok, >>=_ok, All, All-map, Bool-cases,
}
use maestro_app.Project.Paths.{
  ProjectError, root_dir, cur_dir, parent_dir, normal, FilePath, is_absolute, normalize_absolute,
  strip_prefix, strip_prefix_lem, starts_with,
}
use maestro_app.Project.Roots.{RootCapability, ok_or, require}
use maestro_app.Project.Access.{
  AuthorizedPath, Matched, is_deeper, consider, match_roots, names, join, authorize_under,
  authorize,
}

abbrev pub Among : {A : Type 0} → A → List A → Type 0
Among a [] = ⊥
Among a (x ∷ xs) = (a ≡ x) ⊎ Among a xs

pub All-Among : {A : Type 0} (xs : List A) → All (λ x. Among x xs) xs
All-Among [] = tt
All-Among (x ∷ xs) =
    (inl refl, All-map (λ y. Among y xs) (λ y. Among y (x ∷ xs)) xs (λ y h. inr h) (All-Among xs))

-- One of the two prefixes of a root.
abbrev pub IsPrefix : FilePath → RootCapability → Type 0
IsPrefix prefix root = (prefix ≡ root.canonical) ⊎ (prefix ≡ root.requested)

module _ {ℓ} (P : RootCapability → Type ℓ) (normalized : FilePath) where
  abbrev IsMatch : Option Matched → Type ℓ
  IsMatch none = Unit
  IsMatch (some (root, prefix, depth)) =
      P root × IsPrefix prefix root × (starts_with normalized prefix ≡ true)

  consider-IsMatch :
      (root : RootCapability) (prefix : FilePath) (best : Option Matched)
      → P root
      → IsPrefix prefix root
      → IsMatch best
      → IsMatch (consider normalized root prefix best)
  unfolding consider
  consider-IsMatch root prefix best p q h = elim (Bool-cases (starts_with normalized prefix)) [
    | inr e ↦ rw e h
    | inl e ↦ elim (Bool-cases (is_deeper (length prefix) best)) [
      | inl d ↦ rw (e, d) (p, q, e)
      | inr d ↦ rw (e, d) h
    ]
  ]

  match_roots-IsMatch :
      (roots : List RootCapability) (best : Option Matched)
      → All P roots
      → IsMatch best
      → IsMatch (match_roots normalized roots best)
  unfolding match_roots
  match_roots-IsMatch [] best p h = h
  match_roots-IsMatch (root ∷ roots) best p h = match_roots-IsMatch roots _ p.1 (
      consider-IsMatch root root.requested _ p.0 (inr refl)
        (consider-IsMatch root root.canonical best p.0 (inl refl) h))

  pub match_roots_found :
      (roots : List RootCapability) (root : RootCapability) (prefix : FilePath) (depth : ℕ)
      → All P roots
      → match_roots normalized roots none ≡ some (root, prefix, depth)
      → P root × IsPrefix prefix root × (starts_with normalized prefix ≡ true)
  match_roots_found roots root prefix depth p e =
      let found : IsMatch (match_roots normalized roots none) =
        match_roots-IsMatch roots none p tt in
      rw e at found

-- What is collected are the components of the path.
names_lem :
    (path : FilePath) (found : List (List ℕ)) → names path ≡ ok found → path ≡ map normal found
unfolding names
names_lem [] [] e = refl
names_lem [] (name ∷ found) e = absurd (ground arith)
names_lem (root_dir ∷ path) found e = cc
names_lem (cur_dir ∷ path) found e = cc
names_lem (parent_dir ∷ path) found e = cc
names_lem (normal name ∷ path) found e =
    let (rest, first, last) = >>=_ok (names path) (λ rest. ok (name ∷ rest)) e in
    let split : name ∷ rest ≡ found = ground arith in
    rw (← split) (ap (◌∷◌ (normal name)) (names_lem path rest first))

join_names :
    (base : FilePath) (found : List (List ℕ))
    → join base (map normal found) ≡ base ++ map normal found
unfolding join is_absolute
join_names base [] = refl
join_names base (name ∷ found) = refl

ok_or-some {ℓ} :
    {A : Type ℓ} (value : Option A) (failure : ProjectError) {found : A}
    → ok_or value failure ≡ ok found
    → value ≡ some found
ok_or-some none failure e = cc
ok_or-some (some value) failure e = ground arith

-- The request is a prefix of the root and the names; the answer, the canonical root and them.
abbrev pub IsConfined : FilePath → RootCapability → AuthorizedPath → Type 0
IsConfined normalized root found =
    (found.root ≡ root)
    × (found.canonical ≡ root.canonical ++ map normal found.components)
    × ((prefix : FilePath) × IsPrefix prefix root
        × (normalized ≡ prefix ++ map normal found.components))

abbrev assemble : RootCapability → FilePath → List (List ℕ) → AuthorizedPath
assemble root relative components = record {
  root = root;
  canonical = join root.canonical relative;
  components = components;
}

assemble-IsConfined :
    (normalized : FilePath) (root : RootCapability) (prefix relative : FilePath)
    (components : List (List ℕ)) (found : AuthorizedPath)
    → IsPrefix prefix root
    → normalized ≡ prefix ++ relative
    → relative ≡ map normal components
    → assemble root relative components ≡ found
    → IsConfined normalized root found
assemble-IsConfined normalized root prefix relative components found p split named e =
    rw (← e)
      (refl, rw named (join_names root.canonical components), (prefix, p, rw (← named) split))

authorize_under-IsConfined :
    (normalized : FilePath) (root : RootCapability) (prefix : FilePath) (depth : ℕ)
    (found : AuthorizedPath)
    → IsPrefix prefix root
    → authorize_under normalized (root, prefix, depth) ≡ ok found
    → IsConfined normalized root found
unfolding authorize_under
authorize_under-IsConfined normalized root prefix depth found p e =
    let (relative, stripped, later) = >>=_ok (ok_or (strip_prefix normalized prefix) _) _ e in
    let (components, collected, last) = >>=_ok (names relative) _ later in
    assemble-IsConfined normalized root prefix relative components found p
      (strip_prefix_lem normalized prefix relative
        (ok_or-some (strip_prefix normalized prefix) _ stripped))
      (names_lem relative components collected) (ground (arith, last))

-- When a path is authorized, its canonical form is the canonical directory of one of the roots,
-- followed by names only, so that no component climbs; and the request, normalized, is the
-- canonical or the requested path of that root followed by the same names.
pub authorize-IsConfined :
    (roots : List RootCapability) (requested : FilePath) (found : AuthorizedPath)
    → authorize roots requested ≡ ok found
    → (normalized : FilePath) × (root : RootCapability) × (normalize_absolute requested
        ≡ ok normalized)
      × Among root roots
      × IsConfined normalized root found
unfolding authorize
authorize-IsConfined roots requested found e =
    let (unit, absolute, e1) = >>=_ok (require (is_absolute requested) _) _ e in
    let (normalized, resolved, e2) = >>=_ok (normalize_absolute requested) _ e1 in
    let ((root, prefix, depth), matched, e3) =
      >>=_ok (ok_or (match_roots normalized roots none) _) _ e2 in
    let (among, p, _) =
      match_roots_found (λ r. Among r roots) normalized roots root prefix depth (All-Among roots)
        (ok_or-some (match_roots normalized roots none) _ matched) in
    (
      normalized,
      root,
      resolved,
      among,
      authorize_under-IsConfined normalized root prefix depth found p e3,
    )
