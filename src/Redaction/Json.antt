-- ===== src/Redaction/Json.antt =====
-- The walk over JSON of crates/maestro-redaction/src/lib.rs. `Json` is `serde_json::Value`, whose
-- numbers are texts here, as no code reads them.
pub mod Sanitized
pub mod Count
use maestro_app.Prelude.{
  ℕ, suc, ◌+◌, Bool, true, false, Option, none, some, List, [], ◌∷◌, leb, if◌then◌else◌,
}
use maestro_app.Redaction.Bytes.{redacted, bytes_eq, is_sensitive_key}
use maestro_app.Redaction.Ranges.{redact_text}

abbrev pub max_json_depth : ℕ
max_json_depth = 128

mutual
  pub data Json : Type 0 where
    null : Json
    boolean : Bool → Json
    number : List ℕ → Json
    text : List ℕ → Json
    array : Items → Json
    object : Entries → Json

  pub data Items : Type 0 where
    no_items : Items
    item : Json → Items → Items

  pub data Entries : Type 0 where
    no_entries : Entries
    entry : List ℕ → Json → Entries → Entries

abbrev marker : Json
marker = text redacted

-- The new value, and how many values were changed.
unfoldable pub redact_named_value : Json → Json × ℕ
redact_named_value null = (null, 0)
redact_named_value (text s) = if bytes_eq s redacted then (text s, 0) else (marker, 1)
redact_named_value _ = (marker, 1)

abbrev pub redact_leaf : List ℕ → Option (List ℕ) → Json × ℕ
redact_leaf s none = (text s, 0)
redact_leaf s (some t) = (text t, 1)

abbrev pub in_array : Items × ℕ → Json × ℕ
in_array (xs, n) = (array xs, n)

abbrev pub in_object : Entries × ℕ → Json × ℕ
in_object (es, n) = (object es, n)

abbrev pub add_item : Json × ℕ → Items × ℕ → Items × ℕ
add_item (v, m) (xs, n) = (item v xs, m + n)

abbrev pub add_entry : List ℕ → Json × ℕ → Entries × ℕ → Entries × ℕ
add_entry key (v, m) (es, n) = (entry key v es, m + n)

-- An empty container at the depth limit is kept.
abbrev pub cut_array : Items → Json × ℕ
cut_array no_items = (array no_items, 0)
cut_array (item v xs) = (marker, 1)

abbrev pub cut_object : Entries → Json × ℕ
cut_object no_entries = (object no_entries, 0)
cut_object (entry key v es) = (marker, 1)

unfoldable mutual
  pub redact_json_value : Json → ℕ → Json × ℕ
  redact_json_value null depth = (null, 0)
  redact_json_value (boolean b) depth = (boolean b, 0)
  redact_json_value (number n) depth = (number n, 0)
  redact_json_value (text s) depth = redact_leaf s (redact_text s)
  redact_json_value (array xs) depth =
      let walked = redact_items xs (suc depth) in
      if leb max_json_depth depth then cut_array xs else in_array walked
  redact_json_value (object es) depth =
      let walked = redact_entries es (suc depth) in
      if leb max_json_depth depth then cut_object es else in_object walked

  pub redact_items : Items → ℕ → Items × ℕ
  redact_items no_items depth = (no_items, 0)
  redact_items (item v xs) depth = add_item (redact_json_value v depth) (redact_items xs depth)

  pub redact_entries : Entries → ℕ → Entries × ℕ
  redact_entries no_entries depth = (no_entries, 0)
  redact_entries (entry key v es) depth =
      let walked = redact_json_value v depth in
      add_entry key (if is_sensitive_key key then redact_named_value v else walked)
        (redact_entries es depth)

unfoldable pub redact_json : Json → Json
unfolding redact_json_value
redact_json value = (redact_json_value value 0).0
