-- ===== src/Daemon/Capture/Stderr.antt =====
-- What the bounded stderr of a run (crates/maestrod/src/fake_session.rs) holds.
use maestro_app.Prelude.{
  ℕ, suc, ◌-◌, ◌≤◌, ◌<◌, ◌≡◌, refl, sym, ap, ◌∙◌, Bool, true, ◌||◌, List, [], ◌∷◌, ◌++◌, arith, ltb,
  leb, ◌==◌, length, length-append, length-drop, drop, drop_at, drop-nil, drop-all, drop-drop,
  drop-append_left, drop-append_right, append-nil, append_assoc, subst, inl, inr, Bool-cases,
  concat,
}
use maestro_app.Daemon.Capture.{BoundedBytes, empty_bytes, pop_excess, push_bytes, is_empty}

-- The newest `limit` bytes of a stream.
abbrev pub tail : ℕ → List ℕ → List ℕ
tail limit stream = drop (length stream - limit) stream

-- The buffer holds the newest bytes of the stream; it is marked truncated if some were lost, and
-- only if there were at least `limit` of them, and any.
pub record Tail (s : BoundedBytes) (limit : ℕ) (stream : List ℕ) : Type 0 where
  pub newest : s.bytes ≡ tail limit stream
  pub lost : limit < length stream → s.truncated ≡ true
  pub honest : s.truncated ≡ true → (limit ≤ length stream) × (0 < length stream)

pop_excess-tail :
    (limit : ℕ) (bytes : List ℕ) (truncated : Bool)
    → (pop_excess limit bytes truncated).bytes ≡ tail limit bytes
unfolding pop_excess
pop_excess-tail limit [] truncated = sym (drop-nil (0 - limit))
pop_excess-tail limit (b ∷ bs) truncated = elim (Bool-cases (ltb limit (length (b ∷ bs)))) [
  | inl over ↦ rw over (
      pop_excess-tail limit bs true
      ∙ drop_at (suc (length bs - limit)) (length (b ∷ bs) - limit) (b ∷ bs) (ground arith))
  | inr within ↦ rw within (drop_at 0 (length (b ∷ bs) - limit) (b ∷ bs) (ground arith))
]

pop_excess-truncated :
    (limit : ℕ) (bytes : List ℕ) (truncated : Bool)
    → (pop_excess limit bytes truncated).truncated ≡ (truncated || ltb limit (length bytes))
unfolding pop_excess
pop_excess-truncated limit [] truncated = ground arith
pop_excess-truncated limit (b ∷ bs) truncated = ground (arith, pop_excess-truncated limit bs true)

large-tail :
    (limit : ℕ) (stream input : List ℕ)
    → limit ≤ length input
    → drop (length input - limit) input ≡ tail limit (stream ++ input)
large-tail limit stream input h = sym (
    drop-append_right (length input - limit) (length (stream ++ input) - limit) stream input
      (omega (arith, length-append stream input)))

small-tail :
    (limit : ℕ) (bytes stream input : List ℕ)
    → bytes ≡ tail limit stream
    → length input ≤ limit
    → tail limit (bytes ++ input) ≡ tail limit (stream ++ input)
small-tail limit bytes stream input e h =
    let cut = length stream - limit in
    let joined : bytes ++ input ≡ drop cut (stream ++ input) =
      ap (λ bs. bs ++ input) e ∙ sym (drop-append_left cut stream input (omega arith)) in
    ap (λ bs. drop (length (bytes ++ input) - limit) bs) joined
    ∙ drop-drop (length (bytes ++ input) - limit) cut (length (stream ++ input) - limit)
        (stream ++ input)
        (omega (
          arith,
          length-append bytes input,
          length-append stream input,
          ap length e,
          length-drop cut stream,
        ))

is_empty-length : (input : List ℕ) → is_empty input ≡ (length input == 0)
is_empty-length [] = refl
is_empty-length (b ∷ bs) = ground arith

push_bytes-Tail :
    (s : BoundedBytes) (limit : ℕ) (stream input : List ℕ)
    → Tail s limit stream
    → Tail (push_bytes s input limit) limit (stream ++ input)
unfolding push_bytes
push_bytes-Tail s limit stream input t = elim (Bool-cases (limit == 0)) [
  | inl none ↦ rw none (record {
    newest =
        t.newest
        ∙ drop-all (length stream - limit) stream (ground arith)
        ∙ sym (drop-all (length (stream ++ input) - limit) (stream ++ input) (ground arith));
    lost = λ h. ground (arith, is_empty-length input, t.lost, length-append stream input);
    honest = λ h. ground (arith, h, is_empty-length input, t.honest, length-append stream input);
  })
  | inr some ↦ elim (Bool-cases (leb limit (length input))) [
    | inl large ↦
        rw (some, large)
          (record {
            newest = large-tail limit stream input (ground arith);
            lost = λ h. refl;
            honest = λ h. ground (arith, length-append stream input);
          })
    | inr small ↦
        let flag = pop_excess-truncated limit (s.bytes ++ input) s.truncated in
        rw (some, small)
          (record {
            newest =
                pop_excess-tail limit (s.bytes ++ input) s.truncated
                ∙ small-tail limit s.bytes stream input t.newest (ground arith);
            lost = λ h. ground (
              arith,
              flag,
              t.lost,
              length-append stream input,
              length-append s.bytes input,
              ap length t.newest,
              length-drop (length stream - limit) stream,
            );
            honest = λ h. ground (
              arith,
              h,
              flag,
              t.honest,
              length-append stream input,
              length-append s.bytes input,
              ap length t.newest,
              length-drop (length stream - limit) stream,
            );
          })
  ]
]

abbrev pub collects : BoundedBytes → ℕ → List (List ℕ) → BoundedBytes
collects s limit [] = s
collects s limit (input ∷ reads) = collects (push_bytes s input limit) limit reads

collects-Tail :
    (reads : List (List ℕ)) (s : BoundedBytes) (limit : ℕ) (stream : List ℕ)
    → Tail s limit stream
    → Tail (collects s limit reads) limit (stream ++ concat reads)
collects-Tail [] s limit stream t = rw (append-nil stream) t
collects-Tail (input ∷ reads) s limit stream t =
    subst (Tail (collects (push_bytes s input limit) limit reads) limit)
      (append_assoc stream input (concat reads))
      (collects-Tail reads (push_bytes s input limit) limit (stream ++ input)
        (push_bytes-Tail s limit stream input t))

-- However stderr is cut into reads, the buffer of a run holds exactly the newest `limit` bytes of
-- it, and all of it where there are fewer. It is marked truncated if bytes were lost, and only if
-- the stream has at least `limit` bytes.
pub collects-newest :
    (limit : ℕ) (reads : List (List ℕ))
    → ((collects empty_bytes limit reads).bytes ≡ tail limit (concat reads))
      × (limit < length (concat reads) → (collects empty_bytes limit reads).truncated ≡ true)
      × ((collects empty_bytes limit reads).truncated ≡ true → limit ≤ length (concat reads))
collects-newest limit reads =
    let t = collects-Tail reads empty_bytes limit [] (record {
      newest = sym (drop-nil (0 - limit));
      lost = λ h. absurd (omega (arith, h));
      honest = λ h. cc;
    }) in
    (t.newest, t.lost, λ h. (t.honest h).0)
