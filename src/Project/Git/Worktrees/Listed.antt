-- ===== src/Project/Git/Worktrees/Listed.antt =====
-- `parse_worktrees` of crates/maestro-project/src/git.rs on what `git worktree list` writes.
use maestro_app.Prelude.{
  ℕ, ◌≡◌, refl, ap, ◌∙◌, true, Option, none, some, List, [], ◌∷◌, ◌++◌, map, ok, All, split,
  split-append, IsFree, append_assoc, append-nil, from_utf8_lossy, codes,
}
use maestro_app.Project.Git.Worktrees.{
  WorktreeInfo, nonempty_reason, started, classify, describe, Reading, read_field, read_fields,
  parse_worktrees,
}

-- What git says of a worktree. A lock and a prunable worktree may come without a reason.
pub data Attribute : Type 0 where
  at_commit : List ℕ → Attribute
  on_branch : List ℕ → Attribute
  is_detached : Attribute
  is_bare : Attribute
  is_locked : (reason : Option (List ℕ)) → Attribute
  is_prunable : (reason : Option (List ℕ)) → Attribute

abbrev with_reason : List ℕ → Option (List ℕ) → List ℕ
with_reason word none = word
with_reason word (some reason) = word ++ b' ' ∷ reason

abbrev pub attribute_text : Attribute → List ℕ
attribute_text (at_commit commit) = codes "HEAD " ++ commit
attribute_text (on_branch name) = codes "branch refs/heads/" ++ name
attribute_text is_detached = codes "detached"
attribute_text is_bare = codes "bare"
attribute_text (is_locked reason) = with_reason (codes "locked") reason
attribute_text (is_prunable reason) = with_reason (codes "prunable") reason

-- A reason that is there is not empty.
abbrev IsReason : Option (List ℕ) → Type 0
IsReason none = Unit
IsReason (some []) = ⊥
IsReason (some (b ∷ reason)) = Unit

abbrev HasReason : Attribute → Type 0
HasReason (is_locked reason) = IsReason reason
HasReason (is_prunable reason) = IsReason reason
HasReason attribute = Unit

abbrev pub IsAttribute : Attribute → Type 0
IsAttribute attribute = IsFree 0 (attribute_text attribute) × HasReason attribute

abbrev shown : Option (List ℕ) → Option (List ℕ)
shown none = none
shown (some reason) = some (from_utf8_lossy reason)

abbrev pub set : WorktreeInfo → Attribute → WorktreeInfo
set w (at_commit commit) = record w { head = some (from_utf8_lossy commit) }
set w (on_branch name) = record w { branch = some (from_utf8_lossy name) }
set w is_detached = record w { detached = true }
set w is_bare = record w { bare = true }
set w (is_locked reason) = record w { locked_reason = shown reason }
set w (is_prunable reason) = record w { prunable_reason = shown reason }

pub record Listing : Type 0 where
  pub path : List ℕ
  pub attributes : List Attribute

abbrev pub IsListing : Listing → Type 0
IsListing listing =
    IsFree 0 (codes "worktree " ++ listing.path) × All IsAttribute listing.attributes

abbrev render_attributes : List Attribute → List ℕ → List ℕ
render_attributes [] rest = rest
render_attributes (attribute ∷ attributes) rest =
    attribute_text attribute ++ 0 ∷ render_attributes attributes rest

-- The output of git: the fields of each worktree, each ended by a zero byte, and an empty field.
abbrev pub render : List Listing → List ℕ
render [] = []
render (listing ∷ listings) =
    (codes "worktree " ++ listing.path)
    ++ 0 ∷ render_attributes listing.attributes (0 ∷ render listings)

abbrev set_all : WorktreeInfo → List Attribute → WorktreeInfo
set_all w [] = w
set_all w (attribute ∷ attributes) = set_all (set w attribute) attributes

abbrev pub described : Listing → WorktreeInfo
described listing = set_all (started listing.path) listing.attributes

read_attribute :
    (worktrees : List WorktreeInfo) (w : WorktreeInfo) (attribute : Attribute)
    → HasReason attribute
    → read_field (worktrees, some w) (classify (attribute_text attribute))
      ≡ ok (worktrees, some (set w attribute))
unfolding read_field classify describe nonempty_reason
read_attribute worktrees w (at_commit commit) h = refl
read_attribute worktrees w (on_branch name) h = refl
read_attribute worktrees w is_detached h = refl
read_attribute worktrees w is_bare h = refl
read_attribute worktrees w (is_locked none) h = refl
read_attribute worktrees w (is_locked (some [])) h = absurd h
read_attribute worktrees w (is_locked (some (b ∷ reason))) h = refl
read_attribute worktrees w (is_prunable none) h = refl
read_attribute worktrees w (is_prunable (some [])) h = absurd h
read_attribute worktrees w (is_prunable (some (b ∷ reason))) h = refl

read_start :
    (worktrees : List WorktreeInfo) (path : List ℕ)
    → read_field (worktrees, none) (classify (codes "worktree " ++ path))
      ≡ ok (worktrees, some (started path))
unfolding read_field classify
read_start worktrees path = refl

read_blank :
    (worktrees : List WorktreeInfo) (w : WorktreeInfo)
    → read_field (worktrees, some w) (classify []) ≡ ok (worktrees ++ w ∷ [], none)
unfolding read_field classify
read_blank worktrees w = refl

read_step :
    (reading next : Reading) (field rest : List ℕ)
    → IsFree 0 field
    → read_field reading (classify field) ≡ ok next
    → read_fields reading (split 0 (field ++ 0 ∷ rest)) ≡ read_fields next (split 0 rest)
unfolding read_fields
read_step reading next field rest h e = rw (split-append 0 field rest h, read_fields, e) refl

read_attributes :
    (worktrees : List WorktreeInfo) (w : WorktreeInfo) (attributes : List Attribute) (rest : List ℕ)
    → All IsAttribute attributes
    → read_fields (worktrees, some w) (split 0 (render_attributes attributes rest))
      ≡ read_fields (worktrees, some (set_all w attributes)) (split 0 rest)
read_attributes worktrees w [] rest h = refl
read_attributes worktrees w (attribute ∷ attributes) rest h =
    read_step (worktrees, some w) (worktrees, some (set w attribute)) (attribute_text attribute)
      (render_attributes attributes rest) h.0.0 (read_attribute worktrees w attribute h.0.1)
    ∙ read_attributes worktrees (set w attribute) attributes rest h.1

end_of_output :
    (worktrees : List WorktreeInfo)
    → read_fields (worktrees, none) (split 0 []) ≡ ok (worktrees, none)
unfolding read_fields read_field classify split
end_of_output worktrees = refl

read_listings :
    (listings : List Listing) (worktrees : List WorktreeInfo)
    → All IsListing listings
    → read_fields (worktrees, none) (split 0 (render listings))
      ≡ ok (worktrees ++ map described listings, none)
read_listings [] worktrees h = rw (append-nil worktrees) (end_of_output worktrees)
read_listings (listing ∷ listings) worktrees ((p, a), rest) =
    read_step (worktrees, none) (worktrees, some (started listing.path))
      (codes "worktree " ++ listing.path) _ p (read_start worktrees listing.path)
    ∙ (read_attributes worktrees (started listing.path) listing.attributes (0 ∷ render listings) a
        ∙ (read_step (worktrees, some (described listing))
              (worktrees ++ described listing ∷ [], none) [] (render listings) tt
              (read_blank worktrees (described listing))
            ∙ (read_listings listings (worktrees ++ described listing ∷ []) rest
                ∙ ap (λ all. ok (all, none))
                    (append_assoc worktrees (described listing ∷ []) (map described listings)))))

-- The list that git writes is read back: for every worktree and more, with no zero byte in a field
-- and no empty reason, the parser returns one entry for each, in order, with its path and
-- what its lines say. A worktree that is locked without a reason has none, as one that is not
-- locked.
pub parse_worktrees-render :
    (first : Listing) (more : List Listing)
    → All IsListing (first ∷ more)
    → parse_worktrees (render (first ∷ more)) ≡ ok (map described (first ∷ more))
unfolding parse_worktrees
parse_worktrees-render first more h = rw (read_listings (first ∷ more) [] h) refl
