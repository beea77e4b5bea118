-- ===== src/Adapter/Jsonl/Chunks.antt =====
-- One read and two reads of the same bytes by the decoder of crates/maestro-adapter/src/jsonl.rs.
use maestro_app.Prelude.{
  ℕ, ◌≤◌, ◌≡◌, ◌≢◌, refl, ap, subst, String, Bool, false, none, List, [], ◌∷◌, ◌++◌, arith, length,
  length-append, Result, Result-cases, ltb, take, take-eq_self, min, inl, inr,
}
use mathlib.Core.List.{append_assoc, append-nil}
use maestro_app.Adapter.Jsonl.{
  Decoder, Decoded, Round, going, returned, clean, extend_checked, pop_cr, push_line, push_lines,
  push, split_lines, after_loop, and_then,
}
use maestro_app.Adapter.Jsonl.Lines.{glue, split_lines-append}
use maestro_app.Adapter.Jsonl.Bounds.{IsBounded, push_lines-Kept}

abbrev extend : Decoder → List ℕ → Decoder
extend d bytes = record d { buffer = d.buffer ++ bytes }

-- Two pieces that fit together fit one after the other.
extend_checked-append :
    (d : Decoder) (t u : List ℕ) (d' : Decoder)
    → extend_checked d (t ++ u) ≡ (d', none)
    → (extend_checked d t ≡ (extend d t, none)) × (extend_checked (extend d t) u ≡ (d', none))
unfolding extend_checked
extend_checked-append d t u d' h =
    ground (arith, length-append t u, length-append d.buffer t, append_assoc d.buffer t u)

module _ {Value : Type 0} (from_slice : List ℕ → Result Value String) where
  -- Going on after a round, in two steps.
  and_then_assoc :
      (r : Round Value) (f g h : Decoder → List Value → Round Value)
      → ((d : Decoder) (frames : List Value) → f d frames ≡ and_then from_slice (g d frames) h)
      → and_then from_slice r f ≡ and_then from_slice (and_then from_slice r g) h
  and_then_assoc (going d frames) f g h same = same d frames
  and_then_assoc (returned r) f g h same = refl

  push_lines-append :
      (ls ms : List (List ℕ)) (d : Decoder) (frames : List Value)
      → push_lines from_slice d frames (ls ++ ms)
        ≡ and_then from_slice
            (push_lines from_slice d frames ls)
            (λ d' frames'. push_lines from_slice d' frames' ms)
  unfolding push_lines
  push_lines-append [] ms d frames = refl
  push_lines-append (l ∷ ls) ms d frames =
      and_then_assoc (push_line from_slice d frames l) _ _ _ (push_lines-append ls ms)

  -- A line that goes on with the rest of a buffered one is the whole line.
  push_line-glue :
      (d : Decoder) (frames : List Value) (t m : List ℕ) (d' : Decoder) (frames' : List Value)
      → push_line from_slice d frames (t ++ m) ≡ going d' frames'
      → (extend_checked d t ≡ (extend d t, none))
        × (push_line from_slice (extend d t) frames m ≡ going d' frames')
  unfolding push_line extend_checked
  push_line-glue d frames t m d' frames' h =
      ground (arith, extend_checked-append d t m (extend d (t ++ m)), append_assoc d.buffer t m)

  -- What was decoded before does not matter, but for the fan-out limit.
  push_line-offset :
      (d : Decoder) (fs gs : List Value) (m : List ℕ) (d' : Decoder) (out : List Value)
      → push_line from_slice d (fs ++ gs) m ≡ going d' out
      → (hs : List Value) × (out ≡ fs ++ hs) × (push_line from_slice d gs m ≡ going d' hs)
  unfolding push_line extend_checked
  push_line-offset d fs gs m d' out h = elim (Result-cases (from_slice (pop_cr (d.buffer ++ m)))) [
    | inl (frame, e) ↦ (
      gs ++ frame ∷ [],
      ground (arith, e, append_assoc fs gs (frame ∷ [])),
      ground (arith, e, length-append fs gs),
    )
    | inr (error, e) ↦ absurd (ground (arith, e))
  ]

  abbrev Ends : Round Value → Type 0
  Ends (going d frames) = Unit
  Ends (returned r) = r.terminal_error ≢ none

  push_line-Ends :
      (d : Decoder) (frames : List Value) (m : List ℕ) → Ends (push_line from_slice d frames m)
  unfolding push_line extend_checked
  push_line-Ends d frames m = elim (Result-cases (from_slice (pop_cr (d.buffer ++ m)))) [
    | inl (frame, e) ↦ ground (arith, e)
    | inr (error, e) ↦ ground (arith, e)
  ]

  and_then-Ends :
      (r : Round Value) (k : Decoder → List Value → Round Value)
      → Ends r
      → ((d : Decoder) (frames : List Value) → Ends (k d frames))
      → Ends (and_then from_slice r k)
  and_then-Ends (going d frames) k h next = next d frames
  and_then-Ends (returned r) k h next = h

  -- The loop is left early only with an error.
  push_lines-Ends :
      (ls : List (List ℕ)) (d : Decoder) (frames : List Value)
      → Ends (push_lines from_slice d frames ls)
  unfolding push_lines
  push_lines-Ends [] d frames = tt
  push_lines-Ends (l ∷ ls) d frames =
      and_then-Ends (push_line from_slice d frames l) _ (push_line-Ends d frames l)
        (push_lines-Ends ls)

  -- A clean end was reached through the whole loop, with no byte over the batch limit.
  after_loop-clean :
      (late : Bool) (u : List ℕ) (r : Round Value) (d' : Decoder) (out : List Value)
      → Ends r
      → after_loop from_slice late u r ≡ clean d' out
      → (late ≡ false) × ((d : Decoder) × (r ≡ going d out) × (extend_checked d u ≡ (d', none)))
  unfolding extend_checked
  after_loop-clean late u (going d frames) d' out h e =
      (ground arith, (d, ground arith, ground arith))
  after_loop-clean late u (returned r) d' out h e =
      absurd (h (ap (λ (x : Decoded Value). x.terminal_error) e))

  and_then-going :
      (r : Round Value) (k : Decoder → List Value → Round Value) (d' : Decoder) (out : List Value)
      → and_then from_slice r k ≡ going d' out
      → (d : Decoder) × (frames : List Value) × (r ≡ going d frames) × (k d frames ≡ going d' out)
  and_then-going (going d frames) k d' out e = (d, frames, refl, e)
  and_then-going (returned r) k d' out e = cc

  push_lines-offset :
      (ms : List (List ℕ)) (d : Decoder) (fs gs : List Value) (d' : Decoder) (out : List Value)
      → push_lines from_slice d (fs ++ gs) ms ≡ going d' out
      → (hs : List Value) × (out ≡ fs ++ hs) × (push_lines from_slice d gs ms ≡ going d' hs)
  unfolding push_lines
  push_lines-offset [] d fs gs d' out h = (gs, cc, ground arith)
  push_lines-offset (m ∷ ms) d fs gs d' out h =
      let (d1, mid, first, later) =
        and_then-going (push_line from_slice d (fs ++ gs) m) _ d' out h in
      let (hs, e, first') = push_line-offset d fs gs m d1 mid first in
      let (ks, e', later') = push_lines-offset ms d1 fs hs d' out (rw (← e) later) in
      (ks, e', rw (first', push_lines) later')

  -- A line that goes on with a buffered remainder, at the start of a further text.
  resume :
      (d : Decoder) (fs : List Value) (t : List ℕ) (q : List (List ℕ) × List ℕ) (x d' : Decoder)
      (out : List Value)
      → push_lines from_slice d fs (glue t q).0 ≡ going x out
      → extend_checked x (glue t q).1 ≡ (d', none)
      → (extend_checked d t ≡ (extend d t, none))
        × (y : Decoder) × (push_lines from_slice (extend d t) fs q.0 ≡ going y out)
        × (extend_checked y q.1 ≡ (d', none))
  unfolding push_lines
  resume d fs t ([], u) x d' out h e =
      let whole : extend_checked d (t ++ u) ≡ (d', none) = ground arith in
      let (first, later) = extend_checked-append d t u d' whole in
      (first, extend d t, ground arith, later)
  resume d fs t (m ∷ ms, u) x d' out h e =
      let (d1, mid, first, later) = and_then-going (push_line from_slice d fs (t ++ m)) _ x out h in
      let (fits, glued) = push_line-glue d fs t m d1 mid first in
      (fits, x, rw (glued, push_lines) later, e)

  -- The clean reads: within the batch limit, every round goes on, and the remainder fits.
  abbrev pub IsClean : Decoder → List ℕ → Decoder → List Value → Type 0
  IsClean d chunk d' out =
      (length chunk ≤ d.maximum_batch_bytes)
      × (x : Decoder) × (push_lines from_slice d [] (split_lines chunk).0 ≡ going x out)
      × (extend_checked x (split_lines chunk).1 ≡ (d', none))

  abbrev Ran : Decoder → Decoder → List Value → List ℕ → Type 0
  Ran d d' out chunk =
      (x : Decoder) × (push_lines from_slice d [] (split_lines chunk).0 ≡ going x out)
      × (extend_checked x (split_lines chunk).1 ≡ (d', none))

  take_batch :
      (n : ℕ) (chunk : List ℕ) → length chunk ≤ n → take (min (length chunk) n) chunk ≡ chunk
  take_batch n chunk h = take-eq_self (min (length chunk) n) chunk (omega arith)

  push-IsClean :
      (d : Decoder) (chunk : List ℕ) (d' : Decoder) (out : List Value)
      → d.poisoned ≡ false
      → push from_slice d chunk ≡ clean d' out
      → IsClean d chunk d' out
  unfolding push
  push-IsClean d chunk d' out open' h =
      let kept = take (min (length chunk) d.maximum_batch_bytes) chunk in
      let (early, (x, rounds, rest)) =
        after_loop-clean (ltb d.maximum_batch_bytes (length chunk)) (split_lines kept).1
          (push_lines from_slice d [] (split_lines kept).0) d' out
          (push_lines-Ends (split_lines kept).0 d []) (simp open' at h) in
      let fits : length chunk ≤ d.maximum_batch_bytes = ground (arith, early) in
      let same = take_batch d.maximum_batch_bytes chunk fits in
      let (x', rounds', rest') = subst (Ran d d' out) same (x, rounds, rest) in
      (fits, x', rounds', rest')

  pub IsClean-push :
      (d : Decoder) (chunk : List ℕ) (d' : Decoder) (out : List Value)
      → d.poisoned ≡ false
      → IsClean d chunk d' out
      → push from_slice d chunk ≡ clean d' out
  unfolding push
  IsClean-push d chunk d' out open' (fits, x, rounds, rest) =
      let early : ltb d.maximum_batch_bytes (length chunk) ≡ false = ground arith in
      simp (open', take_batch d.maximum_batch_bytes chunk fits, early, rounds, rest)

  -- Cutting a read that decodes without an error, anywhere, decodes the same frames in the same
  -- order, without an error, and leaves the same decoder.
  pub push-append :
      (d : Decoder) (xs ys : List ℕ) (d' : Decoder) (out : List Value)
      → IsBounded d
      → d.poisoned ≡ false
      → push from_slice d (xs ++ ys) ≡ clean d' out
      → (mid : Decoder) × (fs gs : List Value) × (out ≡ fs ++ gs)
        × (push from_slice d xs ≡ clean mid fs)
        × (push from_slice mid ys ≡ clean d' gs)
  push-append d xs ys d' out bounded open' h =
      let (fits, x, rounds, rest) = push-IsClean d (xs ++ ys) d' out open' h in
      let p = split_lines xs in
      let q = split_lines ys in
      let cut = split_lines-append xs ys in
      let whole = rw cut at rounds in
      let joined = rw (push_lines-append p.0 (glue p.1 q).0 d []) at whole in
      let (d1, fs, first, later) = and_then-going (push_lines from_slice d [] p.0) _ x out joined in
      let (buffered, y, again, last) = resume d1 fs p.1 q x d' out later (rw cut at rest) in
      let (gs, e, own) =
        push_lines-offset q.0 (extend d1 p.1) fs [] y out (rw (append-nil fs) again) in
      let kept = rw first at (push_lines-Kept from_slice p.0 d [] bounded open' (omega arith)) in
      (
        extend d1 p.1,
        fs,
        gs,
        e,
        IsClean-push d xs (extend d1 p.1) fs open'
            (omega (arith, fits, length-append xs ys), d1, first, buffered),
        IsClean-push (extend d1 p.1) ys d' gs kept.1
            (omega (arith, fits, length-append xs ys, kept.0.same_batch), y, own, last),
      )
