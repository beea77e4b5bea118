-- ===== src/Project/Paths/Normal.antt =====
-- Normalized paths (crates/maestro-project/src/auth.rs): a root and names.
use maestro_app.Prelude.{
  ◌≡◌, inl, inr, some, List, [], ◌∷◌, ◌++◌, arith, ok, >>=_ok, All, All-append, Option-cases, ℕ,
}
use maestro_app.Project.Paths.{
  only_absolute, PathComponent, root_dir, cur_dir, parent_dir, normal, FilePath, is_absolute,
  parent, normalize_step, normalize_from, normalize_absolute,
}

abbrev pub IsName : PathComponent → Type 0
IsName (normal name) = Unit
IsName component = ⊥

-- A root, if any, and names.
abbrev pub IsResolved : FilePath → Type 0
IsResolved [] = Unit
IsResolved (root_dir ∷ path) = All IsName path
IsResolved (component ∷ path) = IsName component × All IsName path

parent_more :
    (component next : PathComponent) (rest above : FilePath)
    → parent (component ∷ next ∷ rest) ≡ some above
    → (up : FilePath) × (parent (next ∷ rest) ≡ some up) × (above ≡ component ∷ up)
unfolding parent
parent_more component next rest above e = elim (Option-cases (parent (next ∷ rest))) [
  | inl none_left ↦ absurd (ground (arith, none_left))
  | inr (up, found) ↦ (up, found, ground (arith, found))
]

parent-All : (path above : FilePath) → All IsName path → parent path ≡ some above → All IsName above
unfolding parent
parent-All [] above h e = cc
parent-All (normal name ∷ []) [] h e = tt
parent-All (normal name ∷ []) (a ∷ above) h e = absurd (ground arith)
parent-All (normal name ∷ next ∷ rest) above h e =
    let (up, found, split) = parent_more (normal name) next rest above e in
    rw split (tt, parent-All (next ∷ rest) up h.1 found)
parent-All (root_dir ∷ rest) above h e = absurd h.0
parent-All (cur_dir ∷ rest) above h e = absurd h.0
parent-All (parent_dir ∷ rest) above h e = absurd h.0

parent-IsResolved :
    (path above : FilePath) → IsResolved path → parent path ≡ some above → IsResolved above
unfolding parent
parent-IsResolved [] above h e = cc
parent-IsResolved (root_dir ∷ []) above h e = cc
parent-IsResolved (root_dir ∷ next ∷ rest) above h e =
    let (up, found, split) = parent_more root_dir next rest above e in
    rw split (parent-All (next ∷ rest) up h found)
parent-IsResolved (normal name ∷ []) [] h e = tt
parent-IsResolved (normal name ∷ []) (a ∷ above) h e = absurd (ground arith)
parent-IsResolved (normal name ∷ next ∷ rest) above h e =
    let (up, found, split) = parent_more (normal name) next rest above e in
    rw split (tt, parent-All (next ∷ rest) up h.1 found)
parent-IsResolved (cur_dir ∷ rest) above h e = absurd h.0
parent-IsResolved (parent_dir ∷ rest) above h e = absurd h.0

push_name-IsResolved :
    (path : FilePath) (name : List ℕ) → IsResolved path → IsResolved (path ++ normal name ∷ [])
push_name-IsResolved [] name h = (tt, tt)
push_name-IsResolved (root_dir ∷ path) name h = All-append IsName path (normal name ∷ []) h (tt, tt)
push_name-IsResolved (normal first ∷ path) name h =
    (tt, All-append IsName path (normal name ∷ []) h.1 (tt, tt))
push_name-IsResolved (cur_dir ∷ path) name h = absurd h.0
push_name-IsResolved (parent_dir ∷ path) name h = absurd h.0

normalize_step-IsResolved :
    (path next : FilePath) (component : PathComponent)
    → IsResolved path
    → normalize_step path component ≡ ok next
    → IsResolved next
unfolding normalize_step
normalize_step-IsResolved path next cur_dir h e = let p : path ≡ next = ground arith in rw (← p) h
normalize_step-IsResolved path next root_dir h e =
    let p : root_dir ∷ [] ≡ next = ground arith in rw (← p) tt
normalize_step-IsResolved path next (normal name) h e =
    let p : path ++ normal name ∷ [] ≡ next = ground arith in
    rw (← p) (push_name-IsResolved path name h)
normalize_step-IsResolved path next parent_dir h e = elim (Option-cases (parent path)) [
  | inl above_none ↦ absurd (ground (arith, above_none))
  | inr (above, found) ↦ parent-IsResolved path next h (ground (arith, found))
]

normalize_from-IsResolved :
    (path rest next : FilePath)
    → IsResolved path
    → normalize_from path rest ≡ ok next
    → IsResolved next
unfolding normalize_from
normalize_from-IsResolved path [] next h e = let p : path ≡ next = ground arith in rw (← p) h
normalize_from-IsResolved path (component ∷ rest) next h e =
    let (mid, first, later) =
      >>=_ok (normalize_step path component) (λ n. normalize_from n rest) e in
    normalize_from-IsResolved mid rest next (normalize_step-IsResolved path mid component h first)
      later

-- What `normalize_absolute` returns is a root and names.
pub normalize_absolute-names :
    (path normalized : FilePath)
    → normalize_absolute path ≡ ok normalized
    → (names : FilePath) × (normalized ≡ root_dir ∷ names) × All IsName names
unfolding normalize_absolute is_absolute
normalize_absolute-names path normalized e =
    let (found, first, last) = >>=_ok (normalize_from [] path) _ e in
    from_root found normalized (normalize_from-IsResolved [] path found tt first) last
  where
    from_root :
        (found normalized : FilePath)
        → IsResolved found
        → only_absolute found ≡ ok normalized
        → (names : FilePath) × (normalized ≡ root_dir ∷ names) × All IsName names
    from_root [] normalized h e = cc
    from_root (root_dir ∷ names) normalized h e = (names, ground arith, h)
    from_root (normal name ∷ names) normalized h e = cc
    from_root (cur_dir ∷ names) normalized h e = absurd h.0
    from_root (parent_dir ∷ names) normalized h e = absurd h.0
