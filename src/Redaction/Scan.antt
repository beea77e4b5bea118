-- ===== src/Redaction/Scan.antt =====
-- The scanners of crates/maestro-redaction/src/lib.rs, which record ranges of bytes. A loop over a
-- cursor is a recursion over the rest of the text, in which a jump ahead is a number of bytes to
-- skip.
use maestro_app.Prelude.{
  ℕ, zero, suc, ◌+◌, ◌-◌, Bool, true, false, ◌&&◌, ◌||◌, not, Option, none, some, List, [], ◌∷◌,
  ◌++◌, max, ltb, leb, ◌==◌, if◌then◌else◌, length, take, drop, codes,
}
use maestro_app.Redaction.Bytes.{
  redacted, at, before, is_some_and, one_of, starts_with, contains_bytes, eq_ignore_case,
  is_escaped, is_key_byte, is_unquoted_value_delimiter, is_horizontal_whitespace, is_base64_url,
  is_prefixed_token_byte, is_word_boundary, is_token_boundary, is_prefixed_token_boundary,
  query_only_keys, normalize_key, is_sensitive_normalized_key, is_jwt_like, looks_like_bearer,
  looks_like_basic, looks_like_prefixed_credential,
}

-- `Range<usize>`; `KeyRange` has the same fields.
pub record Range : Type 0 where
  pub start : ℕ
  pub end : ℕ

abbrev pub slice : List ℕ → Range → List ℕ
slice bs r = take (r.end - r.start) (drop r.start bs)

-- How many bytes pass the test at the front, and back from a position: the `while` loops.
unfoldable pub run_length : (ℕ → Bool) → List ℕ → ℕ
run_length p [] = 0
run_length p (b ∷ bs) = let more = run_length p bs in if p b then suc more else 0

unfoldable pub back_while : (ℕ → Bool) → List ℕ → ℕ → ℕ
back_while p bs zero = zero
back_while p bs (suc i) =
    let earlier = back_while p bs i in if is_some_and p (at bs i) then earlier else suc i

unfoldable pub skip_horizontal_whitespace : List ℕ → ℕ → ℕ
unfolding run_length
skip_horizontal_whitespace bs cursor = cursor + run_length is_horizontal_whitespace (drop cursor bs)

unfoldable pub previous_unescaped_quote : List ℕ → ℕ → ℕ → Option ℕ
previous_unescaped_quote bs zero quote = none
previous_unescaped_quote bs (suc i) quote =
    let earlier = previous_unescaped_quote bs i quote in
    if is_some_and (λ b. b == quote) (at bs i) && not (is_escaped bs i) then some i else earlier

abbrev nonempty : ℕ → ℕ → Option Range
nonempty start end = if ltb start end then some (record { start = start; end = end }) else none

abbrev quoted_key : Option ℕ → ℕ → Option Range
quoted_key none closing = none
quoted_key (some opening) closing = nonempty (opening + 1) closing

abbrev key_ending : List ℕ → ℕ → Option ℕ → Option Range
key_ending bs end none = none
key_ending bs end (some last) =
    if one_of (39 ∷ 34 ∷ []) last
    then quoted_key (previous_unescaped_quote bs (end - 1) last) (end - 1)
    else nonempty (back_while is_key_byte bs end) end

-- With `end == 0` there is no byte before it.
unfoldable pub key_before_separator : List ℕ → ℕ → Option Range
unfolding back_while
key_before_separator bs separator =
    let end = back_while is_horizontal_whitespace bs separator in key_ending bs end (before bs end)

-- Where the loop for the closing quote stops, from position `i` with the bytes `rest` left.
unfoldable pub closing_quote : List ℕ → ℕ → ℕ → List ℕ → ℕ
closing_quote bs quote i [] = i
closing_quote bs quote i (b ∷ rest) =
    let later = closing_quote bs quote (suc i) rest in
    if b == quote && not (is_escaped bs i) then i else later

abbrev value_from : List ℕ → ℕ → Option ℕ → Option Range
value_from bs start none = none
value_from bs start (some first) =
    if starts_with (drop start bs) redacted
    then none
    else if one_of (39 ∷ 34 ∷ []) first
    then nonempty (start + 1) (closing_quote bs first (start + 1) (drop (start + 1) bs))
    else nonempty start
        (start + run_length (λ b. not (is_unquoted_value_delimiter b)) (drop start bs))

unfoldable pub value_starting_at : List ℕ → ℕ → Option Range
unfolding closing_quote run_length
value_starting_at bs start = value_from bs start (at bs start)

abbrev value_after_separator : List ℕ → ℕ → Option Range
value_after_separator bs separator =
    value_starting_at bs (skip_horizontal_whitespace bs (separator + 1))

abbrev or_range : Option Range → Range → Range
or_range none value = value
or_range (some r) value = r

-- One round of the loop over the schemes; without a return the next round follows.
abbrev after_scheme : List ℕ → Range → List ℕ → Range → Range
after_scheme bs value scheme otherwise =
    let value_bytes = slice bs value in
    if eq_ignore_case value_bytes scheme
    then or_range (value_starting_at bs (skip_horizontal_whitespace bs value.end)) value
    else if leb (length value_bytes) (length scheme)
        || (not (eq_ignore_case (take (length scheme) value_bytes) scheme)
            || not (is_some_and is_horizontal_whitespace (at value_bytes (length scheme))))
    then otherwise
    else or_range
        (value_starting_at bs (skip_horizontal_whitespace bs (value.start + length scheme))) value

abbrev rest_of_line : List ℕ → Range → Range
rest_of_line bs value = record {
  start = value.start;
  end = value.end + run_length (λ b. not (one_of (13 ∷ 10 ∷ []) b)) (drop value.end bs);
}

unfoldable pub authorization_secret_range : List ℕ → Range → Range
unfolding value_starting_at skip_horizontal_whitespace run_length
authorization_secret_range bs value = after_scheme bs value (codes "bearer") (
    after_scheme bs value (codes "basic") (
      if is_some_and (one_of (39 ∷ 34 ∷ [])) (before bs value.start)
      then value
      else rest_of_line bs value))

abbrev assigned : List ℕ → List ℕ → Option Range → List Range
assigned bs normalized none = []
assigned bs normalized (some value) =
    if contains_bytes (codes "authorization" ∷ codes "proxyauthorization" ∷ []) normalized
    then authorization_secret_range bs value ∷ []
    else value ∷ []

abbrev keyed : List ℕ → ℕ → Option Range → List Range
keyed bs separator none = []
keyed bs separator (some key) =
    let normalized = normalize_key (slice bs key) in
    if is_sensitive_normalized_key normalized
      || is_some_and (one_of (codes "?&;")) (before bs key.start)
        && contains_bytes query_only_keys normalized
    then assigned bs normalized (value_after_separator bs separator)
    else []

-- From the separator's position on, with the bytes `rest` left.
unfoldable pub collect_assignment_ranges : List ℕ → ℕ → List ℕ → List Range
unfolding key_before_separator authorization_secret_range
collect_assignment_ranges bs i [] = []
collect_assignment_ranges bs i (b ∷ rest) =
    (if one_of (codes "=:") b then keyed bs i (key_before_separator bs i) else [])
    ++ collect_assignment_ranges bs (suc i) rest

abbrev looks : Bool → List ℕ → Bool
looks true value = looks_like_bearer value
looks false value = looks_like_basic value

-- What the round at a scheme's name finds: the range, if it looks like a credential, and the cursor.
abbrev scheme_round : List ℕ → Bool → ℕ → ℕ → List Range × ℕ
scheme_round bs bearer start after_scheme' =
    let candidate =
      if not (is_word_boundary (before bs start))
        || not (is_some_and is_horizontal_whitespace (at bs after_scheme'))
      then none
      else value_starting_at bs (skip_horizontal_whitespace bs after_scheme') in
    found candidate
  where
    found : Option Range → List Range × ℕ
    found none = ([], after_scheme')
    found (some r) = (if looks bearer (slice bs r) then r ∷ [] else [], max r.end after_scheme')

unfoldable pub collect_scheme : List ℕ → Bool → List ℕ → ℕ → ℕ → List ℕ → List Range
unfolding value_starting_at skip_horizontal_whitespace
collect_scheme bs bearer scheme skip i [] = []
collect_scheme bs bearer scheme (suc skip) i (b ∷ rest) =
    collect_scheme bs bearer scheme skip (suc i) rest
collect_scheme bs bearer scheme zero i (b ∷ rest) =
    let (found, cursor) = scheme_round bs bearer i (i + length scheme) in
    let jump = collect_scheme bs bearer scheme (cursor - suc i) (suc i) rest in
    let next = collect_scheme bs bearer scheme 0 (suc i) rest in
    if eq_ignore_case (take (length scheme) (b ∷ rest)) scheme then found ++ jump else next

unfoldable pub collect_scheme_ranges : List ℕ → List Range
unfolding collect_scheme
collect_scheme_ranges bs =
    collect_scheme bs true (codes "bearer") 0 0 bs ++ collect_scheme bs false (codes "basic") 0 0 bs

abbrev jwt_at : List ℕ → ℕ → ℕ → Bool
jwt_at bs cursor end =
    starts_with (drop cursor bs) (codes "eyJ")
    && (is_token_boundary (before bs cursor)
        && (is_jwt_like (slice bs (record { start = cursor; end = end }))
            && is_token_boundary (at bs end)))

unfoldable pub collect_jwt_ranges : List ℕ → ℕ → ℕ → List ℕ → List Range
unfolding run_length
collect_jwt_ranges bs skip i [] = []
collect_jwt_ranges bs (suc skip) i (b ∷ rest) = collect_jwt_ranges bs skip (suc i) rest
collect_jwt_ranges bs zero i (b ∷ rest) =
    let end = i + 3 + run_length (λ c. is_base64_url c || c == 46) (drop (i + 3) bs) in
    let jump = collect_jwt_ranges bs (end - suc i) (suc i) rest in
    let next = collect_jwt_ranges bs 0 (suc i) rest in
    if jwt_at bs i end then record { start = i; end = end } ∷ jump else next

unfoldable pub collect_prefixed_credential_ranges : List ℕ → ℕ → ℕ → List ℕ → List Range
unfolding run_length
collect_prefixed_credential_ranges bs skip i [] = []
collect_prefixed_credential_ranges bs (suc skip) i (b ∷ rest) =
    collect_prefixed_credential_ranges bs skip (suc i) rest
collect_prefixed_credential_ranges bs zero i (b ∷ rest) =
    let end = i + 1 + run_length is_prefixed_token_byte rest in
    let range : Range = record { start = i; end = end } in
    let jump = collect_prefixed_credential_ranges bs (end - suc i) (suc i) rest in
    let next = collect_prefixed_credential_ranges bs 0 (suc i) rest in
    if not (is_prefixed_token_byte b) || not (is_prefixed_token_boundary (before bs i))
    then next
    else (if looks_like_prefixed_credential (slice bs range) then range ∷ [] else []) ++ jump
