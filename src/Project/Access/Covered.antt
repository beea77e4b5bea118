-- ===== src/Project/Access/Covered.antt =====
-- Which paths are authorized (crates/maestro-project/src/auth.rs).
use maestro_app.Prelude.{
  ℕ, ◌≡◌, refl, inl, inr, ◌⊎◌, Bool, true, ◌||◌, Option, none, some, List, [], ◌∷◌, ◌++◌, arith,
  length, any, ok, All, Bool-cases, Option-cases, All-append_right, subst,
}
use maestro_app.Project.Paths.{
  root_dir, cur_dir, parent_dir, normal, FilePath, is_absolute, normalize_absolute, strip_prefix,
  strip_prefix_lem, starts_with,
}
use maestro_app.Project.Paths.Normal.{IsName, normalize_absolute-names}
use maestro_app.Project.Roots.{RootCapability}
use maestro_app.Project.Access.{
  AuthorizedPath, Matched, is_deeper, consider, match_roots, names, join, authorize_under,
  authorize,
}
use maestro_app.Project.Access.Confined.{match_roots_found, IsPrefix}

-- Whether a prefix of some root covers a path.
abbrev pub covers : FilePath → RootCapability → Bool
covers normalized root =
    starts_with normalized root.canonical || starts_with normalized root.requested

abbrev IsSome : Option Matched → Type 0
IsSome none = ⊥
IsSome (some matched) = Unit

consider_keeps :
    (normalized : FilePath) (root : RootCapability) (prefix : FilePath) (best : Option Matched)
    → IsSome best ⊎ (starts_with normalized prefix ≡ true)
    → IsSome (consider normalized root prefix best)
unfolding consider
consider_keeps normalized root prefix none (inl h) = absurd h
consider_keeps normalized root prefix none (inr h) = rw h tt
consider_keeps normalized root prefix (some best) h =
    elim (Bool-cases (starts_with normalized prefix)) [
      | inr e ↦ rw e tt
      | inl e ↦ elim (Bool-cases (is_deeper (length prefix) (some best))) [
        | inl d ↦ rw (e, d) tt
        | inr d ↦ rw (e, d) tt
      ]
    ]

consider-covers :
    (normalized : FilePath) (root : RootCapability) (best : Option Matched)
    → IsSome best ⊎ (covers normalized root ≡ true)
    → IsSome
        (consider normalized root root.requested (consider normalized root root.canonical best))
consider-covers normalized root best (inl h) =
    consider_keeps normalized root root.requested _
      (inl (consider_keeps normalized root root.canonical best (inl h)))
consider-covers normalized root best (inr h) =
    elim (Bool-cases (starts_with normalized root.canonical)) [
      | inl e ↦
          consider_keeps normalized root root.requested _
            (inl (consider_keeps normalized root root.canonical best (inr e)))
      | inr e ↦ consider_keeps normalized root root.requested _ (inr (rw e at h))
    ]

match_roots-covers :
    (normalized : FilePath) (roots : List RootCapability) (best : Option Matched)
    → IsSome best ⊎ (any (covers normalized) roots ≡ true)
    → IsSome (match_roots normalized roots best)
unfolding match_roots
match_roots-covers normalized [] best (inl h) = h
match_roots-covers normalized [] best (inr h) = cc
match_roots-covers normalized (root ∷ roots) best (inl h) =
    match_roots-covers normalized roots _ (inl (consider-covers normalized root best (inl h)))
match_roots-covers normalized (root ∷ roots) best (inr h) =
    elim (Bool-cases (covers normalized root)) [
      | inl e ↦
          match_roots-covers normalized roots _ (inl (consider-covers normalized root best (inr e)))
      | inr e ↦ match_roots-covers normalized roots _ (inr (rw e at h))
    ]

names_total :
    (path : FilePath) → All IsName path → (found : List (List ℕ)) × (names path ≡ ok found)
unfolding names
names_total [] h = ([], refl)
names_total (normal name ∷ path) h =
    let (found, e) = names_total path h.1 in (name ∷ found, rw e refl)
names_total (root_dir ∷ path) h = absurd h.0
names_total (cur_dir ∷ path) h = absurd h.0
names_total (parent_dir ∷ path) h = absurd h.0

-- Both prefixes of a root are absolute.
abbrev pub IsRooted : RootCapability → Type 0
IsRooted root = (is_absolute root.canonical ≡ true) × (is_absolute root.requested ≡ true)

prefix-is_absolute :
    (root : RootCapability) (prefix : FilePath)
    → IsRooted root
    → IsPrefix prefix root
    → is_absolute prefix ≡ true
prefix-is_absolute root prefix h (inl e) = rw e h.0
prefix-is_absolute root prefix h (inr e) = rw e h.1

-- Below an absolute prefix a normalized path has names only.
relative_names :
    (prefix relative components : FilePath)
    → is_absolute prefix ≡ true
    → root_dir ∷ components ≡ prefix ++ relative
    → All IsName components
    → All IsName relative
unfolding is_absolute
relative_names [] relative components h e n = cc
relative_names (root_dir ∷ prefix) relative components h e n =
    All-append_right IsName prefix relative
      (subst (All IsName) (the_tail components (prefix ++ relative) e) n)
  where
    the_tail : (a b : FilePath) → root_dir ∷ a ≡ root_dir ∷ b → a ≡ b
    the_tail a b p = ground arith
relative_names (cur_dir ∷ prefix) relative components h e n = cc
relative_names (parent_dir ∷ prefix) relative components h e n = cc
relative_names (normal name ∷ prefix) relative components h e n = cc

authorize_under_total :
    (normalized components prefix : FilePath) (root : RootCapability) (depth : ℕ)
    → normalized ≡ root_dir ∷ components
    → All IsName components
    → is_absolute prefix ≡ true
    → starts_with normalized prefix ≡ true
    → (found : AuthorizedPath) × (authorize_under normalized (root, prefix, depth) ≡ ok found)
unfolding authorize_under starts_with
authorize_under_total normalized components prefix root depth split n h e =
    elim (Option-cases (strip_prefix normalized prefix)) [
      | inl gone ↦ absurd (ground (arith, gone))
      | inr (relative, found) ↦
          let (collected, q) = names_total relative (
            relative_names prefix relative components h
              (rw (← split) (strip_prefix_lem normalized prefix relative found)) n) in
          (
            record {
              root = root;
              canonical = join root.canonical relative;
              components = collected;
            },
            rw (found, q) refl,
          )
    ]

-- When the roots are absolute, an absolute path whose normal form lies below the canonical or the
-- requested path of some root is authorized.
pub authorize-covers :
    (roots : List RootCapability) (requested normalized : FilePath)
    → All IsRooted roots
    → is_absolute requested ≡ true
    → normalize_absolute requested ≡ ok normalized
    → any (covers normalized) roots ≡ true
    → (found : AuthorizedPath) × (authorize roots requested ≡ ok found)
unfolding authorize
authorize-covers roots requested normalized rooted absolute resolved c =
    elim (Option-cases (match_roots normalized roots none)) [
      | inl gone ↦
          let some_one : IsSome (match_roots normalized roots none) =
            match_roots-covers normalized roots none (inr c) in
          absurd (rw gone at some_one)
      | inr ((root, prefix, depth), found) ↦
          let (components, split, n) = normalize_absolute-names requested normalized resolved in
          let (h, p, e) =
            match_roots_found IsRooted normalized roots root prefix depth rooted found in
          let (a, q) =
            authorize_under_total normalized components prefix root depth split n
              (prefix-is_absolute root prefix h p) e in
          (a, rw (absolute, resolved, found) q)
    ]
