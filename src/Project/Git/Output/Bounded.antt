-- ===== src/Project/Git/Output/Bounded.antt =====
-- How much of the output of Git is read (crates/maestro-project/src/git.rs).
use maestro_app.Prelude.{
  ℕ, ◌+◌, ◌≡◌, ◌⊎◌, ◌≤◌, ◌<◌, refl, ap, inl, inr, Bool, true, false, ◌||◌, ◌==◌, Option, none, some,
  List, [], ◌∷◌, String, arith, length, take, length-take, ltb, Result, ok, err, >>=_ok,
  take-eq_self, Bool-cases, from_utf8_lossy, take-take,
}
use maestro_app.Project.Paths.{FilePath}
use maestro_app.Project.Git.Status.{GitStatus, parse_status}
use maestro_app.Project.Git.Output.{
  maximum_git_metadata_bytes, Child, Git, GitCommandOutput, bounded, read_bounded, child_of,
  status_of, run, require_success, is_not_repository, authorized_repository, whole,
  status_arguments, GitService, git_status, DiffScope, working_tree, staged, diff_arguments,
  GitDiff, to_diff, diff_success, diff, maximum_diff_bytes,
}

bounded_lem :
    (yielded : List ℕ) (maximum : ℕ)
    → bounded (take (maximum + 1) yielded) maximum
      ≡ (take maximum yielded, ltb maximum (length yielded))
bounded_lem yielded maximum = elim (Bool-cases (ltb maximum (length yielded))) [
  | inl more ↦
      let cut : ltb maximum (length (take (maximum + 1) yielded)) ≡ true =
        ground (arith, length-take (maximum + 1) yielded) in
      rw (more, cut)
        (ap (λ bytes. (bytes, true)) (take-take maximum (maximum + 1) yielded (omega arith)))
  | inr fits ↦
      let short : length yielded ≤ maximum = ground (arith, fits) in
      rw
        (
          take-eq_self (maximum + 1) yielded (omega (arith, short)),
          take-eq_self maximum yielded short,
          fits,
        )
        refl
]

-- What is kept is the first bytes, and the flag says whether there were more.
read_bounded_lem :
    (stdout : Result (List ℕ) (Unit {0})) (maximum : ℕ) (read : List ℕ × Bool)
    → read_bounded stdout maximum ≡ ok read
    → (yielded : List ℕ) × (stdout ≡ ok yielded)
      × (read ≡ (take maximum yielded, ltb maximum (length yielded)))
unfolding read_bounded
read_bounded_lem (err failure) maximum read e = cc
read_bounded_lem (ok yielded) maximum read e =
    (yielded, refl, ground (arith, bounded_lem yielded maximum))

child_of_lem :
    (found : Option Child) (child : Child) → child_of found ≡ ok child → found ≡ some child
child_of_lem none child e = cc
child_of_lem (some found) child e = ground arith

-- What a command that was run wrote, what is kept of it, and how it ended, which it does by being
-- killed if it wrote more.
abbrev pub Ran : Git → FilePath → List String → ℕ → GitCommandOutput → List ℕ → Type 0
Ran git repository arguments maximum output yielded =
    (child : Child) × (git repository arguments ≡ some child)
    × (child.stdout ≡ ok yielded)
    × (output.stdout ≡ take maximum yielded)
    × (output.truncated ≡ ltb maximum (length yielded))
    × (child.success output.truncated ≡ some output.success)

status_of_lem :
    (ended : Option Bool) (success : Bool) → status_of ended ≡ ok success → ended ≡ some success
status_of_lem none success e = cc
status_of_lem (some found) success e = ground arith

run_lem :
    (git : Git) (repository : FilePath) (arguments : List String) (maximum : ℕ)
    (output : GitCommandOutput)
    → run git repository arguments maximum ≡ ok output
    → (yielded : List ℕ) × Ran git repository arguments maximum output yielded
unfolding run
run_lem git repository arguments maximum output e =
    let (child, started, e1) = >>=_ok (child_of (git repository arguments)) _ e in
    let (stdout, read, e2) = >>=_ok (read_bounded child.stdout maximum) _ e1 in
    let (success, ended, e3) = >>=_ok (status_of (child.success stdout.1)) _ e2 in
    let (stderr, told, e4) = >>=_ok (read_bounded child.stderr _) _ e3 in
    let (yielded, pipe, kept) = read_bounded_lem child.stdout maximum stdout read in
    (
      yielded,
      (
        child,
        child_of_lem _ child started,
        pipe,
        ground (arith, kept, e4),
        ground (arith, kept, e4),
        reported child output stdout success ended (ground (arith, e4)) (ground (arith, e4)),
      ),
    )
  where
    reported :
        (child : Child) (output : GitCommandOutput) (stdout : List ℕ × Bool) (success : Bool)
        → status_of (child.success stdout.1) ≡ ok success
        → output.truncated ≡ stdout.1
        → output.success ≡ success
        → child.success output.truncated ≡ some output.success
    reported child output stdout success ended cut well =
        rw (cut, well) (status_of_lem (child.success stdout.1) success ended)

whole_lem :
    (output : GitCommandOutput) (bytes : List ℕ)
    → whole output ≡ ok bytes
    → (output.truncated ≡ false) × (output.stdout ≡ bytes)
whole_lem output bytes e = elim (Bool-cases output.truncated) [
  | inl cut ↦ absurd (ground (arith, cut))
  | inr complete ↦ (complete, ground (arith, complete))
]

require_success_lem :
    (output : GitCommandOutput) → require_success output ≡ ok tt → output.success ≡ true
unfolding require_success
require_success_lem output e = elim (Bool-cases output.success) [
  | inl well ↦ well
  | inr failed ↦ elim (Bool-cases (is_not_repository output.stderr)) [
    | inl missing ↦ absurd (ground (arith, failed, missing))
    | inr present ↦ absurd (ground (arith, failed, present))
  ]
]

-- All that a command wrote, within the limit on metadata, and parsed.
abbrev pub IsWhole : GitService → FilePath → List String → List ℕ → Type 0
IsWhole service repository arguments yielded =
    (output : GitCommandOutput) × Ran service.git repository arguments maximum_git_metadata_bytes
      output yielded
    × (output.success ≡ true)
    × (length yielded ≤ maximum_git_metadata_bytes)

whole_output :
    (git : Git) (repository : FilePath) (arguments : List String) (maximum : ℕ)
    (output : GitCommandOutput) (yielded bytes : List ℕ)
    → Ran git repository arguments maximum output yielded
    → whole output ≡ ok bytes
    → (bytes ≡ yielded) × (length yielded ≤ maximum)
whole_output git repository arguments maximum output yielded bytes (child, s, p, kept, cut, ended)
      e =
    let (complete, same) = whole_lem output bytes e in
    let fits : length yielded ≤ maximum = ground (arith, complete, cut) in
    (ground (arith, same, kept, take-eq_self maximum yielded fits), fits)

-- A status that is returned is of a repository below the roots, and it is the parse of all that
-- Git wrote, at most 16 MiB, in a run that ended well: output that was cut off is never parsed.
pub git_status-IsWhole :
    (service : GitService) (requested : FilePath) (status : GitStatus)
    → git_status service requested ≡ ok status
    → (repository : FilePath) × (yielded : List ℕ) × (authorized_repository service.system
          service.roots requested
        ≡ ok repository)
      × IsWhole service repository status_arguments yielded
      × (parse_status yielded ≡ ok status)
unfolding git_status
git_status-IsWhole service requested status e =
    let (repository, below, e1) =
      >>=_ok (authorized_repository service.system service.roots requested) _ e in
    let (output, ended, e2) =
      >>=_ok (run service.git repository status_arguments maximum_git_metadata_bytes) _ e1 in
    let (unit, well, e3) = >>=_ok (require_success output) _ e2 in
    let (bytes, complete, parsed) = >>=_ok (whole output) _ e3 in
    let (yielded, ran) = run_lem service.git repository status_arguments _ output ended in
    let (same, fits) =
      whole_output service.git repository status_arguments maximum_git_metadata_bytes output yielded
        bytes ran complete in
    (
      repository,
      yielded,
      below,
      (output, ran, require_success_lem output well, fits),
      rw (← same) parsed,
    )

diff_success_lem :
    (output : GitCommandOutput)
    → diff_success output ≡ ok tt
    → (output.success ≡ true) ⊎ (output.truncated ≡ true)
unfolding diff_success
diff_success_lem output e = elim (Bool-cases output.success) [
  | inl well ↦ inl well
  | inr failed ↦ elim (Bool-cases output.truncated) [
    | inl cut ↦ inr cut
    | inr complete ↦ elim (Bool-cases (is_not_repository output.stderr)) [
      | inl missing ↦ absurd (ground (arith, failed, complete, missing))
      | inr present ↦ absurd (ground (arith, failed, complete, present))
    ]
  ]
]

-- What Git is asked for a diff, of the files as they are and of those that are staged.
abbrev pub asked : DiffScope → List String
asked working_tree =
    "-c" ∷ "core.quotepath=false" ∷ "diff" ∷ "--no-ext-diff" ∷ "--no-color" ∷ "--find-renames"
    ∷ "--" ∷ []
asked staged =
    "-c" ∷ "core.quotepath=false" ∷ "diff" ∷ "--no-ext-diff" ∷ "--no-color" ∷ "--find-renames"
    ∷ "--cached" ∷ "--" ∷ []

diff_arguments-asked : (scope : DiffScope) → diff_arguments scope ≡ asked scope
diff_arguments-asked working_tree = refl
diff_arguments-asked staged = refl

limits :
    (maximum : ℕ)
    → (maximum == 0 || ltb maximum_diff_bytes maximum) ≡ false
    → (0 < maximum) × (maximum ≤ maximum_diff_bytes)
limits maximum h = ground arith

diff_fields :
    (output : GitCommandOutput) (found : GitDiff) (maximum : ℕ) (yielded : List ℕ)
    → output.stdout ≡ take maximum yielded
    → output.truncated ≡ ltb maximum (length yielded)
    → to_diff (from_utf8_lossy output.stdout) output.truncated ≡ found
    → (found.text ≡ from_utf8_lossy (take maximum yielded))
      × (found.truncated ≡ ltb maximum (length yielded))
unfolding to_diff
diff_fields output found maximum yielded kept cut e = rw (← e) (ap from_utf8_lossy kept, cut)

-- A diff that is returned is of a repository below the roots: its text is that of the first
-- `maximum_bytes` bytes that Git wrote there when it was asked for the changes of the scope, in a run
-- that ended well or was cut off, the flag says whether there were more, and the limit is between one
-- byte and 32 MiB.
pub diff_bounded :
    (service : GitService) (requested : FilePath) (scope : DiffScope) (maximum_bytes : ℕ)
    (found : GitDiff)
    → diff service requested scope maximum_bytes ≡ ok found
    → (repository : FilePath) × (yielded : List ℕ) × (authorized_repository service.system
          service.roots requested
        ≡ ok repository)
      × (output : GitCommandOutput) × Ran service.git repository
          (asked scope)
          maximum_bytes
          output
          yielded
      × ((output.success ≡ true) ⊎ (output.truncated ≡ true))
      × (found.text ≡ from_utf8_lossy (take maximum_bytes yielded))
      × (found.truncated ≡ ltb maximum_bytes (length yielded))
      × ((0 < maximum_bytes) × (maximum_bytes ≤ maximum_diff_bytes))
unfolding diff
diff_bounded service requested scope maximum_bytes found e =
    elim (Bool-cases (maximum_bytes == 0 || ltb maximum_diff_bytes maximum_bytes)) [
      | inl refused ↦ absurd (ground (arith, rw refused at e))
      | inr allowed ↦
          let h = rw allowed at e in
          let (repository, below, e1) =
            >>=_ok (authorized_repository service.system service.roots requested) _ h in
          let (output, ended, e2) =
            >>=_ok (run service.git repository (diff_arguments scope) maximum_bytes) _ e1 in
          let (unit, well, last) = >>=_ok (diff_success output) _ e2 in
          let (yielded, ran) =
            run_lem service.git repository (diff_arguments scope) maximum_bytes output ended in
          let (child, s, p, kept, cut, status) = ran in
          let (text, more) =
            diff_fields output found maximum_bytes yielded kept cut (ground (arith, last)) in
          (
            repository,
            yielded,
            below,
            output,
            rw (← diff_arguments-asked scope) ran,
            diff_success_lem output well,
            text,
            more,
            limits maximum_bytes allowed,
          )
    ]
