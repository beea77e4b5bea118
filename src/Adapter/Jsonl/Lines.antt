-- ===== src/Adapter/Jsonl/Lines.antt =====
-- The segments that the loop of `push` (crates/maestro-adapter/src/jsonl.rs) meets.
use maestro_app.Prelude.{
  ℕ, ◌≡◌, ◌≢◌, refl, sym, ap, ◌∙◌, inl, inr, List, [], ◌∷◌, ◌++◌, arith, ◌==◌, Bool-cases, All,
  All-append,
}
use maestro_app.Adapter.Jsonl.{split_lines, prepend}

-- The text that segments and a remainder stand for.
abbrev pub join_lines : List (List ℕ) → List ℕ → List ℕ
join_lines [] rest = rest
join_lines (l ∷ ls) rest = l ++ b'\n' ∷ join_lines ls rest

-- No newline.
unfoldable pub IsLine : List ℕ → Type 0
IsLine = All (λ b. b ≢ b'\n')

pub IsLine-nil : IsLine []
unfolding IsLine
IsLine-nil = tt

pub IsLine-append : (xs ys : List ℕ) → IsLine xs → IsLine ys → IsLine (xs ++ ys)
unfolding IsLine
IsLine-append = All-append (λ b. b ≢ b'\n')

-- A remainder `t`, continued by text that splits into `ls` and `rest`.
abbrev pub glue : List ℕ → List (List ℕ) × List ℕ → List (List ℕ) × List ℕ
glue t ([], rest) = ([], t ++ rest)
glue t (l ∷ ls, rest) = ((t ++ l) ∷ ls, rest)

join_lines-prepend :
    (b : ℕ) (p : List (List ℕ) × List ℕ)
    → join_lines (prepend b p).0 (prepend b p).1 ≡ b ∷ join_lines p.0 p.1
join_lines-prepend b ([], rest) = refl
join_lines-prepend b (l ∷ ls, rest) = refl

-- Splitting loses nothing.
pub join_lines-split_lines : (bs : List ℕ) → join_lines (split_lines bs).0 (split_lines bs).1 ≡ bs
unfolding split_lines
join_lines-split_lines [] = refl
join_lines-split_lines (b ∷ bs) = elim (Bool-cases (b == b'\n')) [
  | inl newline ↦ rw newline (ground (arith, join_lines-split_lines bs))
  | inr other ↦
      rw other (join_lines-prepend b (split_lines bs) ∙ ap (◌∷◌ b) (join_lines-split_lines bs))
]

AreLines : List (List ℕ) × List ℕ → Type 0
AreLines (ls, rest) = All IsLine ls × IsLine rest

AreLines-prepend :
    (b : ℕ) (p : List (List ℕ) × List ℕ) → b ≢ b'\n' → AreLines p → AreLines (prepend b p)
unfolding AreLines IsLine
AreLines-prepend b ([], rest) ne h = (tt, (ne, h.1))
AreLines-prepend b (l ∷ ls, rest) ne h = (((ne, h.0.0), h.0.1), h.1)

split_lines-AreLines : (bs : List ℕ) → AreLines (split_lines bs)
unfolding split_lines AreLines IsLine
split_lines-AreLines [] = (tt, tt)
split_lines-AreLines (b ∷ bs) = elim (Bool-cases (b == b'\n')) [
  | inl newline ↦ rw newline ((tt, (split_lines-AreLines bs).0), (split_lines-AreLines bs).1)
  | inr other ↦
      rw other (AreLines-prepend b (split_lines bs) (ground arith) (split_lines-AreLines bs))
]

pub split_lines-lines : (bs : List ℕ) → All IsLine (split_lines bs).0
unfolding AreLines IsLine
split_lines-lines bs = (split_lines-AreLines bs).0

pub split_lines-rest : (bs : List ℕ) → IsLine (split_lines bs).1
unfolding AreLines IsLine
split_lines-rest bs = (split_lines-AreLines bs).1

-- Splitting is undone by joining, so it is the only way to cut a text at its newlines.
pub split_lines-join_lines :
    (ls : List (List ℕ)) (rest : List ℕ)
    → All IsLine ls
    → IsLine rest
    → split_lines (join_lines ls rest) ≡ (ls, rest)
unfolding split_lines IsLine
split_lines-join_lines [] [] h k = refl
split_lines-join_lines [] (b ∷ bs) h k =
    let ih = split_lines-join_lines [] bs tt k.1 in ground arith
split_lines-join_lines ([] ∷ ls) rest h k =
    let ih = split_lines-join_lines ls rest h.1 k in ground arith
split_lines-join_lines ((b ∷ l) ∷ ls) rest h k =
    let ih = split_lines-join_lines (l ∷ ls) rest (h.0.1, h.1) k in ground arith

-- Two splits, one after the other: the remainder of the first begins the first line of the second.
abbrev pub combine : List (List ℕ) × List ℕ → List (List ℕ) × List ℕ → List (List ℕ) × List ℕ
combine (ls, t) q = (ls ++ (glue t q).0, (glue t q).1)

prepend-combine :
    (b : ℕ) (p q : List (List ℕ) × List ℕ) → prepend b (combine p q) ≡ combine (prepend b p) q
prepend-combine b ([], t) ([], rest) = refl
prepend-combine b ([], t) (l ∷ ls, rest) = refl
prepend-combine b (m ∷ ms, t) q = refl

glue-nil : (q : List (List ℕ) × List ℕ) → glue [] q ≡ q
glue-nil ([], rest) = refl
glue-nil (l ∷ ls, rest) = refl

pub split_lines-append :
    (xs ys : List ℕ) → split_lines (xs ++ ys) ≡ combine (split_lines xs) (split_lines ys)
unfolding split_lines
split_lines-append [] ys = sym (glue-nil (split_lines ys))
split_lines-append (b ∷ xs) ys = elim (Bool-cases (b == b'\n')) [
  | inl newline ↦
      rw newline (ap (λ (p : List (List ℕ) × List ℕ). ([] ∷ p.0, p.1)) (split_lines-append xs ys))
  | inr other ↦ rw other (
      ap (prepend b) (split_lines-append xs ys)
      ∙ prepend-combine b (split_lines xs) (split_lines ys))
]
