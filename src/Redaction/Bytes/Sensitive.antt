-- ===== src/Redaction/Bytes/Sensitive.antt =====
-- Which keys of crates/maestro-redaction/src/lib.rs are sensitive.
use maestro_app.Prelude.{
  ℕ, ◌-◌, ◌≡◌, ◌⊎◌, ◌↔◌, refl, sym, ap, ◌∙◌, Bool, true, false, ◌||◌, List, [], ◌∷◌, ◌++◌, inl, inr,
  arith, leb, length, length-append, take, drop, take-drop, any, retain, map, Bool-cases,
}
use maestro_app.Redaction.Bytes.{
  bytes_eq, contains_bytes, ends_with, is_alphanumeric, to_lower, sensitive_keys,
  sensitive_suffixes, normalize_key, is_sensitive_normalized_key, is_sensitive_key,
}

-- One of the texts has the property.
abbrev pub Some : (List ℕ → Type 0) → List (List ℕ) → Type 0
Some P [] = ⊥
Some P (x ∷ xs) = P x ⊎ Some P xs

-- The key, without what is no letter or digit and in lower case, is a listed name or has a listed
-- ending.
abbrev pub IsSensitive : List ℕ → Type 0
IsSensitive key =
    Some (λ name. map to_lower (retain is_alphanumeric key) ≡ name) sensitive_keys
    ⊎ Some
        (λ suffix.
          (prefix : List ℕ) × (map to_lower (retain is_alphanumeric key) ≡ prefix ++ suffix))
        sensitive_suffixes

pub bytes_eq-eq : (a b : List ℕ) → bytes_eq a b ≡ true → a ≡ b
bytes_eq-eq [] [] h = refl
bytes_eq-eq [] (b ∷ bs) h = cc
bytes_eq-eq (a ∷ as') [] h = cc
bytes_eq-eq (a ∷ as') (b ∷ bs) h = ground (arith, bytes_eq-eq as' bs)

bytes_eq_refl : (a : List ℕ) → bytes_eq a a ≡ true
bytes_eq_refl [] = refl
bytes_eq_refl (a ∷ as') = ground (arith, bytes_eq_refl as')

any-Some :
    (p : List ℕ → Bool) (P : List ℕ → Type 0) (xs : List (List ℕ))
    → ((x : List ℕ) → (p x ≡ true) ↔ P x)
    → (any p xs ≡ true) ↔ Some P xs
any-Some p P [] h = ((λ e. cc), λ e. absurd e)
any-Some p P (x ∷ xs) h =
    let (to, from) = any-Some p P xs h in
    elim (Bool-cases (p x)) [
      | inl holds ↦ ((λ e. inl ((h x).0 holds)), λ e. ground (arith, holds))
      | inr fails ↦ (
        (λ e. inr (to (ground (arith, e, fails)))),
        λ e. elim e [
          | inl first ↦ absurd (ground (arith, (h x).1 first, fails))
          | inr later ↦ ground (arith, from later, fails)
        ],
      )
    ]

drop-append : (xs ys : List ℕ) → drop (length xs) (xs ++ ys) ≡ ys
drop-append [] ys = refl
drop-append (x ∷ xs) ys = drop-append xs ys

ends_with_iff :
    (key suffix : List ℕ)
    → (ends_with key suffix ≡ true) ↔ ((prefix : List ℕ) × (key ≡ prefix ++ suffix))
ends_with_iff key suffix = (
  (λ h.
      let cut : bytes_eq (drop (length key - length suffix) key) suffix ≡ true =
        ground (arith, h) in
      (
        take (length key - length suffix) key,
        sym (take-drop (length key - length suffix) key)
            ∙ ap (λ rest. take (length key - length suffix) key ++ rest) (bytes_eq-eq _ suffix cut),
      )),
  λ (prefix, e).
      let long = length-append prefix suffix in
      let start : length (prefix ++ suffix) - length suffix ≡ length prefix = omega (arith, long) in
      let fits : leb (length suffix) (length (prefix ++ suffix)) ≡ true = ground (arith, long) in
      rw (e, fits, start, drop-append prefix suffix) (bytes_eq_refl suffix),
)

either :
    {P Q : Type 0} (a b : Bool)
    → (a ≡ true → P)
    → (P → a ≡ true)
    → (b ≡ true → Q)
    → (Q → b ≡ true)
    → ((a || b) ≡ true) ↔ (P ⊎ Q)
either true b p p' q q' = ((λ e. inl (p refl)), λ e. refl)
either false b p p' q q' = (
  (λ e. inr (q e)),
  λ e. elim e [ inl first ↦ absurd (ground (arith, p' first)) | inr second ↦ q' second ],
)

pub is_sensitive_key_iff : (key : List ℕ) → (is_sensitive_key key ≡ true) ↔ IsSensitive key
unfolding is_sensitive_key is_sensitive_normalized_key normalize_key
is_sensitive_key_iff key =
    let normal = map to_lower (retain is_alphanumeric key) in
    let (to_name, from_name) =
      any-Some (λ name. bytes_eq name normal) (λ name. normal ≡ name) sensitive_keys
        (λ name. ((λ e. sym (bytes_eq-eq name normal e)), λ e. rw e (bytes_eq_refl name))) in
    let (to_ending, from_ending) =
      any-Some (ends_with normal) (λ suffix. (prefix : List ℕ) × (normal ≡ prefix ++ suffix))
        sensitive_suffixes (ends_with_iff normal) in
    either (contains_bytes sensitive_keys normal) (any (ends_with normal) sensitive_suffixes)
      to_name from_name to_ending from_ending
