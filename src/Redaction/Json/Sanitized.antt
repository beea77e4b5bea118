-- ===== src/Redaction/Json/Sanitized.antt =====
-- What the walk of crates/maestro-redaction/src/lib.rs makes of a JSON value.
use maestro_app.Prelude.{
  ℕ, suc, ◌≤◌, ◌≡◌, ◌≢◌, ◌⊎◌, refl, ap, false, List, [], ◌∷◌, ◌++◌, arith, leb, inl, inr,
  Bool-cases, retain,
}
use maestro_app.Redaction.Bytes.{redacted, bytes_eq, is_sensitive_key}
use maestro_app.Redaction.Bytes.Sensitive.{IsSensitive, is_sensitive_key_iff, bytes_eq-eq}
use maestro_app.Redaction.Scan.{
  Range, collect_assignment_ranges, collect_scheme_ranges, collect_jwt_ranges,
  collect_prefixed_credential_ranges,
}
use maestro_app.Redaction.Ranges.{
  is_kept, normalize_ranges, render_redacted, secret_ranges, rendered, redact_text,
}
use maestro_app.Redaction.Ranges.Merge.{covered}
use maestro_app.Redaction.Ranges.Render.{mask, render_redacted-mask}
use maestro_app.Redaction.Json.{
  max_json_depth, Json, null, boolean, number, text, array, object, Items, no_items, item, Entries,
  no_entries, entry, redact_named_value, redact_leaf, cut_array, cut_object, redact_json_value,
  redact_items, redact_entries, redact_json,
}

-- The secrets that the four scanners find in a text.
abbrev pub scanned : List ℕ → List Range
scanned bs =
    collect_assignment_ranges bs 0 bs
    ++ collect_scheme_ranges bs
    ++ collect_jwt_ranges bs 0 0 bs
    ++ collect_prefixed_credential_ranges bs 0 0 bs

-- The text with a marker for each stretch of bytes that they cover, and every other byte as it is.
abbrev pub masked : List ℕ → List ℕ
masked bs = mask (covered (retain (is_kept bs) (scanned bs))) false 0 bs

-- Under a sensitive key: null stays, all else is the marker.
abbrev pub Hidden : Json → Json → Type 0
Hidden null w = w ≡ null
Hidden v w = w ≡ text redacted

-- The second value is the first redacted, at a depth.
unfoldable mutual
  pub Redacted : ℕ → Json → Json → Type 0
  Redacted depth null w = w ≡ null
  Redacted depth (boolean b) w = w ≡ boolean b
  Redacted depth (number n) w = w ≡ number n
  Redacted depth (text s) w = w ≡ text (masked s)
  Redacted depth (array xs) w =
      ((depth ≤ 127) ⊎ (xs ≡ no_items))
        × ((ys : Items) × (w ≡ array ys) × RedactedItems (suc depth) xs ys)
      ⊎ (128 ≤ depth) × (xs ≢ no_items) × (w ≡ text redacted)
  Redacted depth (object es) w =
      ((depth ≤ 127) ⊎ (es ≡ no_entries))
        × ((fs : Entries) × (w ≡ object fs) × RedactedEntries (suc depth) es fs)
      ⊎ (128 ≤ depth) × (es ≢ no_entries) × (w ≡ text redacted)

  pub RedactedItems : ℕ → Items → Items → Type 0
  RedactedItems depth no_items ys = ys ≡ no_items
  RedactedItems depth (item v xs) ys =
      (w : Json) × (later : Items) × (ys ≡ item w later)
      × Redacted depth v w
      × RedactedItems depth xs later

  pub RedactedEntries : ℕ → Entries → Entries → Type 0
  RedactedEntries depth no_entries fs = fs ≡ no_entries
  RedactedEntries depth (entry key v es) fs =
      (w : Json) × (later : Entries) × (fs ≡ entry key w later)
      × (IsSensitive key × Hidden v w ⊎ (¬ IsSensitive key) × Redacted depth v w)
      × RedactedEntries depth es later

named-Hidden : (v : Json) → Hidden v (redact_named_value v).0
unfolding redact_named_value
named-Hidden null = refl
named-Hidden (boolean b) = refl
named-Hidden (number n) = refl
named-Hidden (text s) = elim (Bool-cases (bytes_eq s redacted)) [
  | inl same ↦ rw same (ap text (bytes_eq-eq s redacted same))
  | inr other ↦ rw other refl
]
named-Hidden (array xs) = refl
named-Hidden (object es) = refl

rendered-masked :
    (s : List ℕ) (ranges : List Range)
    → normalize_ranges s (scanned s) ≡ ranges
    → (redact_leaf s (rendered s ranges)).0 ≡ text (masked s)
unfolding render_redacted
rendered-masked s [] e = ap text (rw e at (render_redacted-mask s (scanned s)))
rendered-masked s (r ∷ rs) e = ap text (rw e at (render_redacted-mask s (scanned s)))

leaf-Redacted : (depth : ℕ) (s : List ℕ) → Redacted depth (text s) (redact_leaf s (redact_text s)).0
unfolding Redacted redact_text secret_ranges
leaf-Redacted depth s = rendered-masked s (normalize_ranges s (scanned s)) refl

cut_array-Redacted :
    (depth : ℕ) (xs : Items) → 128 ≤ depth → Redacted depth (array xs) (cut_array xs).0
unfolding Redacted
cut_array-Redacted depth no_items h = inl (inr refl, (no_items, refl, refl))
cut_array-Redacted depth (item v xs) h = inr (h, (λ e. cc), refl)

cut_object-Redacted :
    (depth : ℕ) (es : Entries) → 128 ≤ depth → Redacted depth (object es) (cut_object es).0
unfolding Redacted
cut_object-Redacted depth no_entries h = inl (inr refl, (no_entries, refl, refl))
cut_object-Redacted depth (entry key v es) h = inr (h, (λ e. cc), refl)

mutual
  unfolding redact_json_value Redacted

  value-Redacted : (v : Json) (depth : ℕ) → Redacted depth v (redact_json_value v depth).0
  value-Redacted null depth = refl
  value-Redacted (boolean b) depth = refl
  value-Redacted (number n) depth = refl
  value-Redacted (text s) depth = leaf-Redacted depth s
  value-Redacted (array xs) depth = elim (Bool-cases (leb max_json_depth depth)) [
    | inl deep ↦ rw deep (cut_array-Redacted depth xs (ground (arith, deep)))
    | inr shallow ↦ rw shallow (
        inl (
          inl (ground (arith, shallow)),
          ((redact_items xs (suc depth)).0, refl, items-Redacted xs (suc depth)),
        ))
  ]
  value-Redacted (object es) depth = elim (Bool-cases (leb max_json_depth depth)) [
    | inl deep ↦ rw deep (cut_object-Redacted depth es (ground (arith, deep)))
    | inr shallow ↦ rw shallow (
        inl (
          inl (ground (arith, shallow)),
          ((redact_entries es (suc depth)).0, refl, entries-Redacted es (suc depth)),
        ))
  ]

  items-Redacted : (xs : Items) (depth : ℕ) → RedactedItems depth xs (redact_items xs depth).0
  items-Redacted no_items depth = refl
  items-Redacted (item v xs) depth = (
    (redact_json_value v depth).0,
    (redact_items xs depth).0,
    refl,
    value-Redacted v depth,
    items-Redacted xs depth,
  )

  entries-Redacted :
      (es : Entries) (depth : ℕ) → RedactedEntries depth es (redact_entries es depth).0
  entries-Redacted no_entries depth = refl
  entries-Redacted (entry key v es) depth =
      let later = (redact_entries es depth).0 in
      let rest = entries-Redacted es depth in
      let (to, from) = is_sensitive_key_iff key in
      elim (Bool-cases (is_sensitive_key key)) [
        | inl sensitive ↦
            rw sensitive
              ((redact_named_value v).0, later, refl, inl (to sensitive, named-Hidden v), rest)
        | inr plain ↦ rw plain (
          (redact_json_value v depth).0,
          later,
          refl,
          inr ((λ s. ground (arith, plain, from s)), value-Redacted v depth),
          rest,
        )
      ]

-- Redaction keeps the keys of a value, its shape and what is no text, with these exceptions. Under a key
-- that is a listed name or has a listed ending (letters and digits only, in lower case) everything
-- but null becomes the marker. In every other text each stretch that the ranges of the four scanners
-- cover (those which pass the filter) becomes one marker, and no other byte changes. A container at
-- depth 128 or deeper becomes the marker unless it is empty. Keys are not scanned themselves, and what
-- counts as a secret in a text is what the scanners find.
pub redact_json-Redacted : (v : Json) → Redacted 0 v (redact_json v)
unfolding redact_json
redact_json-Redacted v = value-Redacted v 0
