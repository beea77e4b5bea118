-- ===== src/Redaction/Json/Count.antt =====
-- The count that the walk of crates/maestro-redaction/src/lib.rs returns.
use maestro_app.Prelude.{
  ℕ, suc, ◌≡◌, refl, ap, Option, none, some, List, arith, leb, inl, inr, Bool-cases,
}
use maestro_app.Redaction.Bytes.{redacted, bytes_eq, is_sensitive_key}
use maestro_app.Redaction.Ranges.{redact_text}
use maestro_app.Redaction.Json.{
  max_json_depth, Json, null, boolean, number, text, array, object, Items, no_items, item, Entries,
  no_entries, entry, redact_named_value, redact_leaf, cut_array, cut_object, redact_json_value,
  redact_items, redact_entries,
}

leaf_same :
    (s : List ℕ) (o : Option (List ℕ)) → (redact_leaf s o).1 ≡ 0 → (redact_leaf s o).0 ≡ text s
leaf_same s none h = refl
leaf_same s (some t) h = absurd (omega (arith, h))

named_same : (v : Json) → (redact_named_value v).1 ≡ 0 → (redact_named_value v).0 ≡ v
unfolding redact_named_value
named_same null h = refl
named_same (text s) h = elim (Bool-cases (bytes_eq s redacted)) [
  | inl same ↦ rw same refl
  | inr other ↦ absurd (omega (arith, rw other at h))
]
named_same (boolean b) h = absurd (omega (arith, h))
named_same (number n) h = absurd (omega (arith, h))
named_same (array xs) h = absurd (omega (arith, h))
named_same (object es) h = absurd (omega (arith, h))

cut_array_same : (xs : Items) → (cut_array xs).1 ≡ 0 → (cut_array xs).0 ≡ array xs
cut_array_same no_items h = refl
cut_array_same (item v xs) h = absurd (omega (arith, h))

cut_object_same : (es : Entries) → (cut_object es).1 ≡ 0 → (cut_object es).0 ≡ object es
cut_object_same no_entries h = refl
cut_object_same (entry key v es) h = absurd (omega (arith, h))

mutual
  unfolding redact_json_value

  value_same :
      (v : Json) (depth : ℕ) → (redact_json_value v depth).1 ≡ 0 → (redact_json_value v depth).0 ≡ v
  value_same null depth h = refl
  value_same (boolean b) depth h = refl
  value_same (number n) depth h = refl
  value_same (text s) depth h = leaf_same s (redact_text s) h
  value_same (array xs) depth h = elim (Bool-cases (leb max_json_depth depth)) [
    | inl deep ↦ rw deep (cut_array_same xs (rw deep at h))
    | inr shallow ↦ rw shallow (ap array (items_same xs (suc depth) (rw shallow at h)))
  ]
  value_same (object es) depth h = elim (Bool-cases (leb max_json_depth depth)) [
    | inl deep ↦ rw deep (cut_object_same es (rw deep at h))
    | inr shallow ↦ rw shallow (ap object (entries_same es (suc depth) (rw shallow at h)))
  ]

  items_same :
      (xs : Items) (depth : ℕ) → (redact_items xs depth).1 ≡ 0 → (redact_items xs depth).0 ≡ xs
  items_same no_items depth h = refl
  items_same (item v xs) depth h =
      cc (value_same v depth (omega (arith, h)), items_same xs depth (omega (arith, h)))

  entries_same :
      (es : Entries) (depth : ℕ)
      → (redact_entries es depth).1 ≡ 0
      → (redact_entries es depth).0 ≡ es
  entries_same no_entries depth h = refl
  entries_same (entry key v es) depth h = elim (Bool-cases (is_sensitive_key key)) [
    | inl sensitive ↦
        let k = rw sensitive at h in
        rw sensitive
          (cc (named_same v (omega (arith, k)), entries_same es depth (omega (arith, k))))
    | inr plain ↦
        let k = rw plain at h in
        rw plain
          (cc (value_same v depth (omega (arith, k)), entries_same es depth (omega (arith, k))))
  ]

-- If the walk counts no change, at whatever depth it starts, the value is as it was.
pub redact_json_value_unchanged :
    (v : Json) (depth : ℕ) → (redact_json_value v depth).1 ≡ 0 → (redact_json_value v depth).0 ≡ v
redact_json_value_unchanged v depth h = value_same v depth h
