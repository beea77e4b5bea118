-- ===== src/Redaction/Ranges/Render.antt =====
-- What `render_redacted` of crates/maestro-redaction/src/lib.rs leaves of a text.
use maestro_app.Prelude.{
  ℕ, zero, suc, ◌+◌, ◌-◌, ◌≤◌, ◌<◌, ◌≡◌, refl, sym, ap, ◌∙◌, Bool, true, false, List, [], ◌∷◌, ◌++◌,
  arith, if◌then◌else◌, length, take, drop, length-drop, drop-drop, retain,
}
use maestro_app.Redaction.Bytes.{redacted}
use maestro_app.Redaction.Scan.{Range}
use maestro_app.Redaction.Ranges.{render_from, render_redacted, normalize_ranges, is_kept}
use maestro_app.Redaction.Ranges.Merge.{covered, IsApart, normalize_ranges-IsApart}

-- Byte by byte: one that is not covered stays, and the first of those covered in a row gives the
-- marker; `was` says whether the byte before was covered.
abbrev pub mask : (ℕ → Bool) → Bool → ℕ → List ℕ → List ℕ
mask hidden was i [] = []
mask hidden was i (b ∷ bs) =
    let rest = mask hidden (hidden i) (suc i) bs in
    if hidden i then (if was then rest else redacted ++ rest) else b ∷ rest

mask-cong :
    (f g : ℕ → Bool) (was : Bool) (i : ℕ) (bs : List ℕ)
    → ((j : ℕ) → i ≤ j → f j ≡ g j)
    → mask f was i bs ≡ mask g was i bs
mask-cong f g was i [] h = refl
mask-cong f g was i (b ∷ bs) h =
    rw (h i (omega arith), mask-cong f g (g i) (suc i) bs (λ j a. h j (omega (arith, a)))) refl

-- Over a part that is not covered.
mask-keep :
    (f : ℕ → Bool) (i n : ℕ) (bs : List ℕ)
    → ((j : ℕ) → i ≤ j → j < i + n → f j ≡ false)
    → mask f false i bs ≡ take n bs ++ mask f false (i + n) (drop n bs)
mask-keep f i zero bs h = ap (λ k. mask f false k bs) (omega arith)
mask-keep f i (suc n) [] h = refl
mask-keep f i (suc n) (b ∷ bs) h = rw (h i (omega arith) (omega arith)) (
    ap (◌∷◌ b) (
      mask-keep f (suc i) n bs (λ j a c. h j (omega (arith, a)) (omega (arith, c)))
      ∙ ap (λ k. take n bs ++ mask f false k (drop n bs)) (omega arith)))

-- Over a part that is covered, after a covered byte.
mask-skip :
    (f : ℕ → Bool) (i n : ℕ) (bs : List ℕ)
    → ((j : ℕ) → i ≤ j → j < i + n → f j ≡ true)
    → mask f true i bs ≡ mask f true (i + n) (drop n bs)
mask-skip f i zero bs h = ap (λ k. mask f true k bs) (omega arith)
mask-skip f i (suc n) [] h = refl
mask-skip f i (suc n) (b ∷ bs) h = rw (h i (omega arith) (omega arith)) (
    mask-skip f (suc i) n bs (λ j a c. h j (omega (arith, a)) (omega (arith, c)))
    ∙ ap (λ k. mask f true k (drop n bs)) (omega arith))

mask-leave :
    (f : ℕ → Bool) (i : ℕ) (bs : List ℕ) → f i ≡ false → mask f true i bs ≡ mask f false i bs
mask-leave f i [] h = refl
mask-leave f i (b ∷ bs) h = rw h refl

-- A covered byte after one that is not.
mask-enter :
    (f : ℕ → Bool) (i : ℕ) (bs : List ℕ)
    → 0 < length bs
    → f i ≡ true
    → mask f false i bs ≡ redacted ++ mask f true (suc i) (drop 1 bs)
mask-enter f i [] h e = absurd (omega (arith, h))
mask-enter f i (b ∷ bs) h e = rw e refl

IsApart-cons :
    (low limit : ℕ) (r : Range) (rs : List Range)
    → IsApart low limit (r ∷ rs)
    → (low ≤ r.start) × (r.start < r.end) × (r.end ≤ limit) × IsApart (suc r.end) limit rs
unfolding IsApart
IsApart-cons low limit r rs h = h

-- No position before the lower bound is covered.
covered-low :
    (low limit : ℕ) (rs : List Range) (i : ℕ)
    → IsApart low limit rs
    → i < low
    → covered rs i ≡ false
unfolding covered
covered-low low limit [] i h a = refl
covered-low low limit (r ∷ rs) i h a =
    let (b, c, d, rest) = IsApart-cons low limit r rs h in
    ground (arith, a, b, c, covered-low (suc r.end) limit rs i rest (omega (arith, a, b, c)))

IsApart-lower :
    (low high limit : ℕ) (rs : List Range)
    → low ≤ high
    → IsApart high limit rs
    → IsApart low limit rs
unfolding IsApart
IsApart-lower low high limit [] a h = tt
IsApart-lower low high limit (r ∷ rs) a (b, c, d, h) = (omega (arith, a, b), c, d, h)

covered-inside :
    (r : Range) (rs : List Range) (i : ℕ) → r.start ≤ i → i < r.end → covered (r ∷ rs) i ≡ true
unfolding covered
covered-inside r rs i a b = ground arith

covered-beyond :
    (r : Range) (rs : List Range) (i : ℕ) → r.end ≤ i → covered (r ∷ rs) i ≡ covered rs i
unfolding covered
covered-beyond r rs i a = ground arith

mask-nothing :
    (f : ℕ → Bool) (i : ℕ) (bs : List ℕ) → ((j : ℕ) → f j ≡ false) → mask f false i bs ≡ bs
mask-nothing f i [] h = refl
mask-nothing f i (b ∷ bs) h = rw (h i) (ap (◌∷◌ b) (mask-nothing f (suc i) bs h))

-- From the start of a range to its end.
mask-range :
    (f : ℕ → Bool) (start end : ℕ) (bs : List ℕ)
    → start < end
    → end ≤ length bs
    → ((j : ℕ) → start ≤ j → j < end → f j ≡ true)
    → f end ≡ false
    → mask f false start (drop start bs) ≡ redacted ++ mask f false end (drop end bs)
mask-range f start end bs a b inside outside =
    mask-enter f start (drop start bs) (omega (arith, a, b, length-drop start bs))
      (inside start (omega arith) a)
    ∙ ap (λ l. redacted ++ mask f true (suc start) l)
        (drop-drop 1 start (suc start) bs (omega arith))
    ∙ ap (λ l. redacted ++ l)
        (mask-skip f (suc start) (end - suc start) (drop (suc start) bs)
            (λ j c d. inside j (omega (arith, c)) (omega (arith, d, a)))
          ∙ ap (λ k. mask f true k (drop (end - suc start) (drop (suc start) bs)))
              (omega (arith, a))
          ∙ ap (mask f true end) (drop-drop (end - suc start) (suc start) end bs (omega (arith, a)))
          ∙ mask-leave f end (drop end bs) outside)

covered-nil : (i : ℕ) → covered [] i ≡ false
unfolding covered
covered-nil i = refl

IsApart-start :
    (low limit : ℕ) (r : Range) (rs : List Range)
    → IsApart low limit (r ∷ rs)
    → IsApart r.start limit (r ∷ rs)
unfolding IsApart
IsApart-start low limit r rs (a, b, c, h) = (omega arith, b, c, h)

render_from-mask :
    (bs : List ℕ) (cursor : ℕ) (rs : List Range)
    → IsApart cursor (length bs) rs
    → render_from bs cursor rs ≡ mask (covered rs) false cursor (drop cursor bs)
unfolding render_from
render_from-mask bs cursor [] h =
    sym (mask-nothing (covered []) cursor (drop cursor bs) (λ j. covered-nil j))
render_from-mask bs cursor (r ∷ rs) h =
    let (a, b, c, rest) = IsApart-cons cursor (length bs) r rs h in
    let f = covered (r ∷ rs) in
    let n = r.start - cursor in
    let after = IsApart-lower r.end (suc r.end) (length bs) rs (omega arith) rest in
    let outside : f r.end ≡ false =
      covered-beyond r rs r.end (omega arith)
      ∙ covered-low (suc r.end) (length bs) rs r.end rest (omega arith) in
    sym (
      mask-keep f cursor n (drop cursor bs) (λ j d e.
        covered-low r.start (length bs) (r ∷ rs) j (IsApart-start cursor (length bs) r rs h)
          (omega (arith, a, e)))
      ∙ ap (λ k. take n (drop cursor bs) ++ mask f false k (drop n (drop cursor bs)))
          (omega (arith, a))
      ∙ ap (λ l. take n (drop cursor bs) ++ mask f false r.start l)
          (drop-drop n cursor r.start bs (omega (arith, a)))
      ∙ ap (λ l. take n (drop cursor bs) ++ l)
          (mask-range f r.start r.end bs b c (covered-inside r rs) outside
            ∙ ap (λ l. redacted ++ l)
                (mask-cong f (covered rs) false r.end (drop r.end bs) (covered-beyond r rs)
                  ∙ sym (render_from-mask bs r.end rs after))))

-- Whatever ranges the scanners record, the rendered text is the input byte by byte, in which each
-- stretch of positions that the recorded ranges (those which pass the filter) cover is replaced by
-- one marker: no covered byte is left, and every other byte is.
pub render_redacted-mask :
    (bs : List ℕ) (ranges : List Range)
    → render_redacted bs (normalize_ranges bs ranges)
      ≡ mask (covered (retain (is_kept bs) ranges)) false 0 bs
unfolding render_redacted
render_redacted-mask bs ranges =
    let (apart, same) = normalize_ranges-IsApart bs ranges in
    render_from-mask bs 0 (normalize_ranges bs ranges) apart
    ∙ mask-cong (covered (normalize_ranges bs ranges)) (covered (retain (is_kept bs) ranges)) false
        0 bs (λ j a. same j)
