-- ===== src/Redaction/Bytes.antt =====
-- The tests on bytes, keys and candidates of crates/maestro-redaction/src/lib.rs. A text is the list
-- of its UTF-8 bytes.
pub mod Sensitive
use maestro_app.Prelude.{
  ℕ, zero, suc, ◌+◌, ◌-◌, ◌%◌, Bool, true, false, ◌&&◌, ◌||◌, not, Option, none, some, List, [],
  ◌∷◌, leb, ◌==◌, if◌then◌else◌, length, drop, any, all, retain, codes, String, map,
}

abbrev pub redacted : List ℕ
redacted = codes "[REDACTED]"

-- A byte of the text, `none` beyond it.
abbrev pub at : List ℕ → ℕ → Option ℕ
at [] i = none
at (b ∷ bs) zero = some b
at (b ∷ bs) (suc i) = at bs i

abbrev pub is_some_and : (ℕ → Bool) → Option ℕ → Bool
is_some_and p none = false
is_some_and p (some b) = p b

abbrev pub is_none_or : (ℕ → Bool) → Option ℕ → Bool
is_none_or p none = true
is_none_or p (some b) = p b

-- The byte before a position: the wrapped index of position 0 is beyond every text.
abbrev pub before : List ℕ → ℕ → Option ℕ
before bs zero = none
before bs (suc i) = at bs i

abbrev pub bytes_eq : List ℕ → List ℕ → Bool
bytes_eq [] [] = true
bytes_eq (a ∷ as') (b ∷ bs) = a == b && bytes_eq as' bs
bytes_eq _ _ = false

abbrev pub starts_with : List ℕ → List ℕ → Bool
starts_with bs [] = true
starts_with [] (p ∷ ps) = false
starts_with (b ∷ bs) (p ∷ ps) = b == p && starts_with bs ps

abbrev pub ends_with : List ℕ → List ℕ → Bool
ends_with bs suffix =
    leb (length suffix) (length bs) && bytes_eq (drop (length bs - length suffix) bs) suffix

abbrev pub contains_bytes : List (List ℕ) → List ℕ → Bool
contains_bytes keys key = any (λ k. bytes_eq k key) keys

abbrev pub one_of : List ℕ → ℕ → Bool
one_of options b = any (λ o. o == b) options

abbrev pub is_digit : ℕ → Bool
is_digit b = leb 48 b && leb b 57

abbrev pub is_upper : ℕ → Bool
is_upper b = leb 65 b && leb b 90

abbrev pub is_lower : ℕ → Bool
is_lower b = leb 97 b && leb b 122

abbrev pub is_alphanumeric : ℕ → Bool
is_alphanumeric b = is_digit b || (is_upper b || is_lower b)

abbrev pub to_lower : ℕ → ℕ
to_lower b = if is_upper b then b + 32 else b

abbrev pub eq_ignore_case : List ℕ → List ℕ → Bool
eq_ignore_case a b = bytes_eq (map to_lower a) (map to_lower b)

abbrev pub is_key_byte : ℕ → Bool
is_key_byte b = is_alphanumeric b || one_of (codes "_-.") b

-- `u8::is_ascii_whitespace` has the form feed 12, which is no character literal here.
abbrev pub is_unquoted_value_delimiter : ℕ → Bool
is_unquoted_value_delimiter b =
    one_of (9 ∷ 10 ∷ 12 ∷ 13 ∷ 32 ∷ []) b || one_of (codes ",;&#'\")]}") b

abbrev pub is_horizontal_whitespace : ℕ → Bool
is_horizontal_whitespace b = b == 32 || b == 9

abbrev pub is_base64_url : ℕ → Bool
is_base64_url b = is_alphanumeric b || one_of (codes "_-") b

abbrev pub is_base64_standard : ℕ → Bool
is_base64_standard b = is_alphanumeric b || one_of (codes "+/=") b

abbrev pub is_prefixed_token_byte : ℕ → Bool
is_prefixed_token_byte b = is_alphanumeric b || one_of (codes "_-") b

abbrev pub is_word_boundary : Option ℕ → Bool
is_word_boundary = is_none_or (λ b. not (is_alphanumeric b) && not (one_of (codes "_-") b))

abbrev pub is_token_boundary : Option ℕ → Bool
is_token_boundary = is_none_or (λ b. not (is_base64_url b) && not (b == 46))

abbrev pub is_prefixed_token_boundary : Option ℕ → Bool
is_prefixed_token_boundary = is_none_or (λ b. not (is_prefixed_token_byte b))

-- The slashes right before a position.
unfoldable pub slashes : List ℕ → ℕ → ℕ
slashes bs zero = 0
slashes bs (suc i) =
    let more = slashes bs i in if is_some_and (λ b. b == 92) (at bs i) then suc more else 0

unfoldable pub is_escaped : List ℕ → ℕ → Bool
unfolding slashes
is_escaped bs position = slashes bs position % 2 == 1

abbrev pub sensitive_keys : List (List ℕ)
sensitive_keys = map codes (
    "apikey" ∷ "apitoken" ∷ "auth" ∷ "authorization" ∷ "authtoken" ∷ "clientsecret" ∷ "credential"
    ∷ "credentials" ∷ "databasepassword" ∷ "dbpassword" ∷ "idtoken" ∷ "password" ∷ "passphrase"
    ∷ "passwd" ∷ "privatekey" ∷ "proxyauthorization" ∷ "pwd" ∷ "refreshtoken" ∷ "secret"
    ∷ "secretaccesskey" ∷ "sessiontoken" ∷ "signingkey" ∷ "token" ∷ [])

abbrev pub sensitive_suffixes : List (List ℕ)
sensitive_suffixes = map codes (
    "apikey" ∷ "apitoken" ∷ "authtoken" ∷ "clientsecret" ∷ "credential" ∷ "credentials" ∷ "idtoken"
    ∷ "password" ∷ "passphrase" ∷ "passwd" ∷ "privatekey" ∷ "refreshtoken" ∷ "secret"
    ∷ "secretaccesskey" ∷ "sessiontoken" ∷ "signingkey" ∷ "token" ∷ [])

abbrev pub query_only_keys : List (List ℕ)
query_only_keys = map codes ("key" ∷ "sig" ∷ "signature" ∷ "xamzcredential" ∷ "xamzsignature" ∷ [])

unfoldable pub normalize_key : List ℕ → List ℕ
normalize_key key = map to_lower (retain is_alphanumeric key)

unfoldable pub is_sensitive_normalized_key : List ℕ → Bool
is_sensitive_normalized_key key =
    contains_bytes sensitive_keys key || any (ends_with key) sensitive_suffixes

unfoldable pub is_sensitive_key : List ℕ → Bool
unfolding normalize_key is_sensitive_normalized_key
is_sensitive_key key = is_sensitive_normalized_key (normalize_key key)

-- `str::split('.')`
unfoldable pub split_dots : List ℕ → List (List ℕ)
split_dots [] = [] ∷ []
split_dots (b ∷ bs) = cut b (split_dots bs)
  where
    cut : ℕ → List (List ℕ) → List (List ℕ)
    cut b [] = [] ∷ []
    cut b (s ∷ ss) = if b == 46 then [] ∷ s ∷ ss else (b ∷ s) ∷ ss

unfoldable pub is_jwt_like : List ℕ → Bool
unfolding split_dots
is_jwt_like candidate = three (split_dots candidate)
  where
    three : List (List ℕ) → Bool
    three (header ∷ payload ∷ signature ∷ []) =
        starts_with header (codes "eyJ")
        && (leb 8 (length header)
            && (leb 8 (length payload)
                && (leb 8 (length signature)
                    && all (all is_base64_url) (header ∷ payload ∷ signature ∷ []))))
    three _ = false

unfoldable pub looks_like_bearer : List ℕ → Bool
looks_like_bearer candidate =
    leb 16 (length candidate)
    || leb 8 (length candidate) && any (λ b. is_digit b || one_of (codes "-_.=") b) candidate

unfoldable pub looks_like_basic : List ℕ → Bool
looks_like_basic candidate =
    leb 8 (length candidate)
    && (length candidate % 4 == 0
        && (all is_base64_standard candidate
            && (any is_lower candidate && any is_upper candidate
                || any (λ b. is_digit b || one_of (codes "+/=") b) candidate)))

abbrev prefixed : List ℕ → String → ℕ → Bool
prefixed candidate prefix least =
    starts_with candidate (codes prefix) && leb least (length candidate)

unfoldable pub looks_like_prefixed_credential : List ℕ → Bool
looks_like_prefixed_credential c =
    prefixed c "sk-" 20
    || (prefixed c "sk_live_" 24
        || (prefixed c "sk_test_" 24
            || (prefixed c "rk_live_" 24
                || (any (λ p. prefixed c p 20)
                      ("ghp_" ∷ "gho_" ∷ "ghu_" ∷ "ghs_" ∷ "github_pat_" ∷ [])
                    || (prefixed c "glpat-" 20
                        || (prefixed c "AIza" 30
                            || (prefixed c "xox" 20
                                  && (is_some_and (λ b. one_of (codes "abprs") (to_lower b))
                                        (at c 3)
                                      && is_some_and (λ b. b == 45) (at c 4))
                                || (starts_with c (codes "AKIA") || starts_with c (codes "ASIA"))
                                  && (length c == 20
                                      && all (λ b. is_upper b || is_digit b) c))))))))
