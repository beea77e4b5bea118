-- ===== src/Project/Roots/Apart.antt =====
-- How the roots of a project lie to each other (crates/maestro-project/src/auth.rs).
use maestro_app.Prelude.{
  ◌≡◌, refl, inl, inr, true, false, List, [], ◌∷◌, ◌++◌, arith, ok, >>=_ok, All, Bool-cases,
  Option-cases, Pairwise, sort_by_key, sort_by_key-Pairwise, lex_before, nat_order, list_order,
  same_refl,
}
use maestro_app.Project.Paths.{
  FilePath, component_key, path_key, path_key_inj, path_eq, path_eq_iff, starts_with, strip_prefix,
  strip_prefix_lem,
}
use maestro_app.Project.Roots.{
  FileSystem, RootCapability, check_pair, check_later, check_roots, check_sorted, canonical_key,
  open_roots, new_roots,
}

base_before : (base rest : FilePath) → lex_before (path_key base) (path_key (base ++ rest)) ≡ true
unfolding lex_before
base_before [] rest = refl
base_before (component ∷ base) rest =
    rw (same_refl (component_key component)) (base_before base rest)

-- What starts with a path comes after it.
starts_with-before :
    (path base : FilePath)
    → starts_with path base ≡ true
    → lex_before (path_key base) (path_key path) ≡ true
unfolding starts_with
starts_with-before path base e = elim (Option-cases (strip_prefix path base)) [
  | inl gone ↦ absurd (ground (arith, gone))
  | inr (rest, found) ↦ rw (strip_prefix_lem path base rest found) (base_before base rest)
]

-- Neither root lies in the other.
abbrev pub IsApart : RootCapability → RootCapability → Type 0
IsApart left right =
    (starts_with right.canonical left.canonical ≡ false)
    × (starts_with left.canonical right.canonical ≡ false)

abbrev IsOrdered : RootCapability → RootCapability → Type 0
IsOrdered left right = lex_before (canonical_key left) (canonical_key right) ≡ true

later_free :
    (left right : RootCapability)
    → IsOrdered left right
    → path_eq left.canonical right.canonical ≡ false
    → starts_with left.canonical right.canonical ≡ false
later_free left right h differ = elim (Bool-cases (starts_with left.canonical right.canonical)) [
  | inr free ↦ free
  | inl nested ↦ absurd (
      ground (
        arith,
        path_eq_iff left.canonical right.canonical,
        path_key_inj left.canonical right.canonical (
            list_order.antisym (canonical_key left) (canonical_key right) h
              (starts_with-before left.canonical right.canonical nested)),
      ))
]

check_pair-IsApart :
    (left right : RootCapability)
    → IsOrdered left right
    → check_pair left right ≡ ok tt
    → IsApart left right
unfolding check_pair
check_pair-IsApart left right h e = elim (Bool-cases (path_eq left.canonical right.canonical)) [
  | inl same ↦ absurd (ground (arith, same))
  | inr differ ↦ elim (Bool-cases (starts_with right.canonical left.canonical)) [
    | inl nested ↦ absurd (ground (arith, differ, nested))
    | inr free ↦ (free, later_free left right h differ)
  ]
]

check_later-IsApart :
    (left : RootCapability) (rest : List RootCapability)
    → All (IsOrdered left) rest
    → check_later left rest ≡ ok tt
    → All (IsApart left) rest
unfolding check_later
check_later-IsApart left [] h e = tt
check_later-IsApart left (right ∷ rest) h e =
    let (unit, first, later) = >>=_ok (check_pair left right) (λ _. check_later left rest) e in
    (check_pair-IsApart left right h.0 first, check_later-IsApart left rest h.1 later)

check_roots-IsApart :
    (roots : List RootCapability)
    → Pairwise IsOrdered roots
    → check_roots roots ≡ ok tt
    → Pairwise IsApart roots
unfolding check_roots
check_roots-IsApart [] h e = tt
check_roots-IsApart (left ∷ rest) h e =
    let (unit, first, later) = >>=_ok (check_later left rest) (λ _. check_roots rest) e in
    (check_later-IsApart left rest h.0 first, check_roots-IsApart rest h.1 later)

check_sorted-IsApart :
    (sorted roots : List RootCapability)
    → Pairwise IsOrdered sorted
    → check_sorted sorted ≡ ok roots
    → Pairwise IsApart roots
unfolding check_sorted
check_sorted-IsApart sorted roots h e =
    let (unit, checked, last) = >>=_ok (check_roots sorted) _ e in
    let same : sorted ≡ roots = ground arith in rw (← same) (check_roots-IsApart sorted h checked)

-- Whatever paths are given and whatever the file system answers, no root of a project that is
-- accepted lies in another one, and no two are the same directory.
pub new_roots-IsApart :
    (files : FileSystem) (paths : List FilePath) (roots : List RootCapability)
    → new_roots files paths ≡ ok roots
    → Pairwise IsApart roots
unfolding new_roots
new_roots-IsApart files [] roots e = cc
new_roots-IsApart files (first ∷ rest) roots e =
    let (opened, found, last) = >>=_ok (open_roots files 0 (first ∷ rest)) _ e in
    check_sorted-IsApart (sort_by_key canonical_key opened) roots
      (sort_by_key-Pairwise canonical_key opened) last
