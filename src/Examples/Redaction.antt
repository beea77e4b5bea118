-- ===== src/Examples/Redaction.antt =====
-- The redaction of crates/maestro-redaction/src/lib.rs at concrete texts, most of them the
-- repository's own.
use maestro_app.Prelude.{ℕ, ◌≡◌, refl, some, List, [], ◌∷◌, false, codes, retain}
use maestro_app.Redaction.Bytes.{
  slashes, is_escaped, normalize_key, is_sensitive_normalized_key, is_sensitive_key, split_dots,
  is_jwt_like, looks_like_bearer, looks_like_basic, looks_like_prefixed_credential,
}
use maestro_app.Redaction.Scan.{
  Range, run_length, back_while, skip_horizontal_whitespace, previous_unescaped_quote,
  key_before_separator, closing_quote, value_starting_at, authorization_secret_range,
  collect_assignment_ranges, collect_scheme, collect_scheme_ranges, collect_jwt_ranges,
  collect_prefixed_credential_ranges,
}
use maestro_app.Redaction.Ranges.{
  is_kept, insert_range, sort_ranges, merge_into, merge_ranges, normalize_ranges, render_from,
  render_redacted, secret_ranges, redact_text,
}
use maestro_app.Redaction.Ranges.Merge.{covered}
use maestro_app.Redaction.Ranges.Render.{mask, render_redacted-mask}
use maestro_app.Redaction.Json.{
  Json, null, text, object, entry, no_entries, redact_json_value, redact_named_value, redact_json,
}
use maestro_app.Redaction.Json.Sanitized.{Redacted, redact_json-Redacted}

assignment_is_hidden :
    redact_text (codes "url?token=abc&x=1") ≡ some (codes "url?token=[REDACTED]&x=1")
unfolding redact_text secret_ranges normalize_ranges render_redacted collect_assignment_ranges
    collect_scheme_ranges collect_jwt_ranges collect_prefixed_credential_ranges slashes is_escaped
    normalize_key is_sensitive_normalized_key split_dots is_jwt_like looks_like_bearer
    looks_like_basic looks_like_prefixed_credential run_length back_while skip_horizontal_whitespace
    previous_unescaped_quote key_before_separator closing_quote value_starting_at
    authorization_secret_range collect_scheme is_kept insert_range sort_ranges merge_into
    merge_ranges render_from
assignment_is_hidden = refl

abbrev bytes : List ℕ
bytes = codes "abcdef"

abbrev recorded : List Range
recorded = record { start = 3; end = 5 } ∷ record { start = 1; end = 4 } ∷ []

render_redacted-mask_example :
    render_redacted bytes (normalize_ranges bytes recorded)
    ≡ mask (covered (retain (is_kept bytes) recorded)) false 0 bytes
render_redacted-mask_example = render_redacted-mask bytes recorded

abbrev json : Json
json = object (entry (codes "apiKey") (text (codes "s")) (entry (codes "name") null no_entries))

redact_json-Redacted_example : Redacted 0 json (redact_json json)
redact_json-Redacted_example = redact_json-Redacted json

abbrev plain : Json
plain = object (entry (codes "name") null no_entries)

nothing_counted : (redact_json_value plain 0).1 ≡ 0
unfolding redact_json_value redact_named_value is_sensitive_key is_sensitive_normalized_key
    normalize_key
nothing_counted = refl
