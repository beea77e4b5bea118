-- ===== src/Redaction/Ranges.antt =====
-- The recorded ranges merged and cut out: `normalize_ranges`, `render_redacted`, `secret_ranges` and
-- `redact_text` of crates/maestro-redaction/src/lib.rs.
pub mod Merge
pub mod Render
use maestro_app.Prelude.{
  ℕ, suc, ◌+◌, ◌-◌, max, Bool, true, false, ◌&&◌, ◌||◌, not, Option, none, some, List, [], ◌∷◌,
  ◌++◌, ltb, leb, ◌==◌, if◌then◌else◌, length, take, drop, retain,
}
use maestro_app.Redaction.Bytes.{redacted, at, bytes_eq}
use maestro_app.Redaction.Scan.{
  Range, slice, collect_assignment_ranges, collect_scheme_ranges, collect_jwt_ranges,
  collect_prefixed_credential_ranges,
}

-- `str::is_char_boundary`: not within a character of several bytes.
abbrev starts_char : Option ℕ → Bool
starts_char none = false
starts_char (some b) = ltb b 128 || leb 192 b

abbrev is_char_boundary : List ℕ → ℕ → Bool
is_char_boundary bs i = i == length bs || starts_char (at bs i)

-- The test of `retain`; `input.get` wants a range of the text between characters.
unfoldable pub is_kept : List ℕ → Range → Bool
is_kept bs r =
    ltb r.start r.end
    && (leb r.end (length bs)
        && (is_char_boundary bs r.start
            && is_char_boundary bs r.end
            && not (bytes_eq (slice bs r) redacted)))

-- `sort_unstable_by_key`: equal keys are equal ranges.
abbrev pub range_le : Range → Range → Bool
range_le a b = ltb a.start b.start || a.start == b.start && leb a.end b.end

unfoldable pub insert_range : Range → List Range → List Range
insert_range r [] = r ∷ []
insert_range r (s ∷ rs) =
    let later = insert_range r rs in if range_le r s then r ∷ s ∷ rs else s ∷ later

unfoldable pub sort_ranges : List Range → List Range
unfolding insert_range
sort_ranges [] = []
sort_ranges (r ∷ rs) = insert_range r (sort_ranges rs)

-- The loop over the sorted ranges, with the last merged range in hand.
unfoldable pub merge_into : Range → List Range → List Range
merge_into previous [] = previous ∷ []
merge_into previous (r ∷ rs) =
    let joined = merge_into (record { start = previous.start; end = max previous.end r.end }) rs in
    let fresh = merge_into r rs in if leb r.start previous.end then joined else previous ∷ fresh

unfoldable pub merge_ranges : List Range → List Range
unfolding merge_into
merge_ranges [] = []
merge_ranges (r ∷ rs) = merge_into r rs

unfoldable pub normalize_ranges : List ℕ → List Range → List Range
unfolding is_kept sort_ranges merge_ranges
normalize_ranges bs ranges = merge_ranges (sort_ranges (retain (is_kept bs) ranges))

-- The loop of `render_redacted`, from `cursor` on.
unfoldable pub render_from : List ℕ → ℕ → List Range → List ℕ
render_from bs cursor [] = drop cursor bs
render_from bs cursor (r ∷ ranges) =
    take (r.start - cursor) (drop cursor bs) ++ (redacted ++ render_from bs r.end ranges)

unfoldable pub render_redacted : List ℕ → List Range → List ℕ
unfolding render_from
render_redacted bs ranges = render_from bs 0 ranges

unfoldable pub secret_ranges : List ℕ → List Range
unfolding collect_assignment_ranges collect_scheme_ranges collect_jwt_ranges
    collect_prefixed_credential_ranges normalize_ranges
secret_ranges bs = normalize_ranges bs (
    collect_assignment_ranges bs 0 bs
    ++ collect_scheme_ranges bs
    ++ collect_jwt_ranges bs 0 0 bs
    ++ collect_prefixed_credential_ranges bs 0 0 bs)

-- `Cow`: `none` where the text is borrowed.
abbrev pub rendered : List ℕ → List Range → Option (List ℕ)
rendered bs [] = none
rendered bs (r ∷ rs) = some (render_redacted bs (r ∷ rs))

unfoldable pub redact_text : List ℕ → Option (List ℕ)
unfolding secret_ranges render_redacted
redact_text bs = rendered bs (secret_ranges bs)
