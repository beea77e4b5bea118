-- ===== src/Adapter/Jsonl/Frames.antt =====
-- Whole streams over crates/maestro-adapter/src/jsonl.rs: many reads, and what the encoder wrote.
use maestro_app.Prelude.{
  ℕ, ◌+◌, ◌≤◌, ◌≡◌, refl, sym, ap, ◌∙◌, subst, String, false, List, [], ◌∷◌, ◌++◌, arith, All,
  length, length-append, Result, Result-cases, ok, ◌>>=◌, >>=_ok, inl, inr,
}
use mathlib.Core.List.{append_assoc, append-nil}
use maestro_app.Adapter.Jsonl.{
  Decoder, Decoded, going, clean, JsonLineError, new, extend_checked, pop_cr, push_lines, push,
  encode_json_line, maximum_jsonl_frames_per_push,
}
use maestro_app.Adapter.Jsonl.Lines.{IsLine, join_lines, split_lines-join_lines}
use maestro_app.Adapter.Jsonl.Bounds.{IsBounded, push-IsBounded, push_error_iff}
use maestro_app.Adapter.Jsonl.Chunks.{push-append, IsClean-push}

abbrev pub concat : List (List ℕ) → List ℕ
concat [] = []
concat (c ∷ cs) = c ++ concat cs

module _ {Value : Type 0} (from_slice : List ℕ → Result Value String) where
  -- A reader hands every chunk that it gets to `push` and collects the frames.
  unfoldable pub push_all : Decoder → List (List ℕ) → Decoder × List Value
  push_all d [] = (d, [])
  push_all d (c ∷ cs) =
      let r = push from_slice d c in
      let (d', frames) = push_all r.decoder cs in (d', r.frames ++ frames)

  push-nil : (d : Decoder) → IsBounded d → d.poisoned ≡ false → push from_slice d [] ≡ clean d []
  unfolding push
  push-nil d bounded open' = ground (arith, append-nil d.buffer)

  -- A stream of bytes that decodes without an error in one read decodes to the same frames however
  -- it is cut into reads, empty ones included.
  pub push_all-concat :
      (chunks : List (List ℕ)) (d d' : Decoder) (out : List Value)
      → IsBounded d
      → d.poisoned ≡ false
      → push from_slice d (concat chunks) ≡ clean d' out
      → push_all d chunks ≡ (d', out)
  unfolding push_all
  push_all-concat [] d d' out bounded open' h =
      let same = sym (push-nil d bounded open') ∙ h in ground (arith, same)
  push_all-concat (c ∷ cs) d d' out bounded open' h =
      let (mid, fs, gs, e, first, later) =
        push-append from_slice d c (concat cs) d' out bounded open' h in
      let kept = subst (λ r. IsBounded r.decoder) first (push-IsBounded from_slice d c bounded) in
      let alive =
        subst (λ r. r.decoder.poisoned ≡ false) first
          ((push_error_iff from_slice d c bounded).0
            (ap (λ (r : Decoded Value). r.terminal_error) first)) in
      let ih = push_all-concat cs mid d' gs kept alive later in rw first (rw ih (ground arith))

module _ {Value : Type 0} (to_vec : Value → Result (List ℕ) String) where
  -- The encoder, run over a list of values.
  unfoldable pub encode_all : ℕ → List Value → Result (List ℕ) JsonLineError
  encode_all limit [] = ok []
  encode_all limit (v ∷ vs) = do
    line ← encode_json_line to_vec v limit
    rest ← encode_all limit vs
    ok (line ++ rest)

-- What the lines rely on of `serde_json`: compact output is JSON without line breaks, whose strings
-- hold no control character that is not escaped.
pub record IsCompact {Value : Type 0} (to_vec : Value → Result (List ℕ) String) : Type 0 where
  pub no_control : (v : Value) (bytes : List ℕ) → to_vec v ≡ ok bytes → All (λ b. 32 ≤ b) bytes

-- A value whose output `serde_json` parses back to it; one that is nested too deeply for the parser,
-- or has a number that does not survive, is no such value.
abbrev pub ReadsBack :
    {Value : Type 0}
    → (List ℕ → Result Value String)
    → (Value → Result (List ℕ) String)
    → Value
    → Type 0
ReadsBack from_slice to_vec v = (bytes : List ℕ) → to_vec v ≡ ok bytes → from_slice bytes ≡ ok v

pop_cr-eq_self : (bs : List ℕ) → All (λ b. 32 ≤ b) bs → pop_cr bs ≡ bs
unfolding pop_cr
pop_cr-eq_self [] h = refl
pop_cr-eq_self (b ∷ []) h = ground arith
pop_cr-eq_self (b ∷ c ∷ bs) h = ap (◌∷◌ b) (pop_cr-eq_self (c ∷ bs) h.1)

IsLine-no_control : (bs : List ℕ) → All (λ b. 32 ≤ b) bs → IsLine bs
unfolding IsLine
IsLine-no_control [] h = tt
IsLine-no_control (b ∷ bs) h = (ground arith, IsLine-no_control bs h.1)

module _ {Value : Type 0} (from_slice : List ℕ → Result Value String)
    (to_vec : Value → Result (List ℕ) String) (compact : IsCompact to_vec) where
  -- The lines of what was written, beside their values.
  abbrev Written : ℕ → List Value → List (List ℕ) → Type 0
  Written limit [] [] = Unit
  Written limit (v ∷ vs) (l ∷ ls) = (to_vec v ≡ ok l) × (length l ≤ limit) × Written limit vs ls
  Written limit _ _ = ⊥

  encode_json_line-Written :
      (limit : ℕ) (v : Value) (line : List ℕ)
      → encode_json_line to_vec v limit ≡ ok line
      → (l : List ℕ) × (line ≡ l ++ b'\n' ∷ []) × (to_vec v ≡ ok l) × (length l ≤ limit)
  unfolding encode_json_line
  encode_json_line-Written limit v line h = elim (Result-cases (to_vec v)) [
    | inl (l, e) ↦ (l, ground (arith, e), e, ground (arith, e))
    | inr (error, e) ↦ absurd (ground (arith, e))
  ]

  encode_all-Written :
      (limit : ℕ) (vs : List Value) (bytes : List ℕ)
      → encode_all to_vec limit vs ≡ ok bytes
      → (ls : List (List ℕ)) × (bytes ≡ join_lines ls []) × Written limit vs ls
  unfolding encode_all
  encode_all-Written limit [] bytes h = ([], ground arith, tt)
  encode_all-Written limit (v ∷ vs) bytes h =
      let (line, first, later) = >>=_ok (encode_json_line to_vec v limit) _ h in
      let (rest, second, last) = >>=_ok (encode_all to_vec limit vs) _ later in
      let (l, e, printed, fits) = encode_json_line-Written limit v line first in
      let (ls, e', written) = encode_all-Written limit vs rest second in
      (
        l ∷ ls,
        ground (arith, append_assoc l (b'\n' ∷ []) (join_lines ls [])),
        (printed, fits, written),
      )

  Written-IsLine :
      (limit : ℕ) (vs : List Value) (ls : List (List ℕ)) → Written limit vs ls → All IsLine ls
  Written-IsLine limit [] [] h = tt
  Written-IsLine limit [] (l ∷ ls) h = elim h [ ]
  Written-IsLine limit (v ∷ vs) [] h = elim h [ ]
  Written-IsLine limit (v ∷ vs) (l ∷ ls) h =
      (IsLine-no_control l (compact.no_control v l h.0), Written-IsLine limit vs ls h.2)

  push_lines-Written :
      (vs : List Value) (ls : List (List ℕ)) (d : Decoder) (frames : List Value)
      → d.buffer ≡ []
      → All (ReadsBack from_slice to_vec) vs
      → Written d.maximum_frame_bytes vs ls
      → length frames + length vs ≤ d.maximum_frames_per_push
      → push_lines from_slice d frames ls ≡ going d (frames ++ vs)
  unfolding push_lines extend_checked
  push_lines-Written [] [] d frames empty back h le = ground (arith, append-nil frames)
  push_lines-Written [] (l ∷ ls) d frames empty back h le = elim h [ ]
  push_lines-Written (v ∷ vs) [] d frames empty back h le = elim h [ ]
  push_lines-Written (v ∷ vs) (l ∷ ls) d frames empty back h le =
      let plain = compact.no_control v l h.0 in
      let ih =
        push_lines-Written vs ls d (frames ++ v ∷ []) empty back.1 h.2
          (omega (arith, length-append frames (v ∷ []))) in
      ground (arith, pop_cr-eq_self l plain, back.0 l h.0, ih, append_assoc frames (v ∷ []) vs)

  new_fresh :
      (limit : ℕ) (d : Decoder)
      → new limit ≡ ok d
      → (d.buffer ≡ [])
        × (d.poisoned ≡ false)
        × (d.maximum_frame_bytes ≡ limit)
        × (d.maximum_frames_per_push ≡ maximum_jsonl_frames_per_push)
  unfolding new
  new_fresh limit d h = ground arith

  -- What the encoder wrote, of values that the JSON parser reads back, under a frame limit is decoded
  -- back, in one read within the batch and fan-out limits, by a new decoder with that limit, which is
  -- left as new as it was; compact JSON output is taken to hold no unescaped control character.
  pub push-encode_all :
      (limit : ℕ) (vs : List Value) (bytes : List ℕ) (d : Decoder)
      → new limit ≡ ok d
      → encode_all to_vec limit vs ≡ ok bytes
      → All (ReadsBack from_slice to_vec) vs
      → length vs ≤ maximum_jsonl_frames_per_push
      → length bytes ≤ d.maximum_batch_bytes
      → push from_slice d bytes ≡ clean d vs
  unfolding extend_checked
  push-encode_all limit vs bytes d made h back few short =
      let (empty, alive, frame, fan) = new_fresh limit d made in
      let (ls, e, written) = encode_all-Written limit vs bytes h in
      let cut =
        split_lines-join_lines ls [] (Written-IsLine limit vs ls written) (unfold IsLine in tt) in
      let rounds =
        push_lines-Written vs ls d [] empty back (rw frame written) (omega (arith, fan)) in
      IsClean-push from_slice d bytes d vs alive
        (rw e (rw cut (rw (← e) short, d, rounds, ground (arith, append-nil d.buffer))))
