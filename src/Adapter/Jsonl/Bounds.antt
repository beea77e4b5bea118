-- ===== src/Adapter/Jsonl/Bounds.antt =====
-- What a decoder of crates/maestro-adapter/src/jsonl.rs holds between two calls, and what a call
-- returns at most.
use maestro_app.Prelude.{
  ℕ, ◌≤◌, ◌≡◌, ◌≢◌, ◌↔◌, refl, ◌∙◌, String, Bool, true, false, none, List, [], ◌∷◌, ◌++◌, arith,
  length, length-append, Bool-cases, Result, Result-cases, ok, err, ltb, take, min, inl, inr,
}
use maestro_app.Adapter.Jsonl.{
  Decoder, Decoded, Round, going, returned, maximum_jsonl_frame_bytes,
  maximum_jsonl_frames_per_push, maximum_jsonl_batch_bytes, new, extend_checked, pop_cr, push_line,
  push_lines, push, finish, split_lines, after_loop, and_then, incomplete_frame,
}
use maestro_app.Adapter.Jsonl.Lines.{IsLine, IsLine-nil, IsLine-append, split_lines-rest}

-- The buffer holds a part of one line that fits the frame limit, nothing once poisoned, and the
-- limits stay under the ceilings of the module.
pub record IsBounded (d : Decoder) : Type 0 where
  pub fits : length d.buffer ≤ d.maximum_frame_bytes
  pub is_line : IsLine d.buffer
  pub emptied : d.poisoned ≡ true → d.buffer ≡ []
  pub frame_ceiling : d.maximum_frame_bytes ≤ maximum_jsonl_frame_bytes
  pub batch_ceiling : d.maximum_batch_bytes ≤ maximum_jsonl_batch_bytes
  pub frames_ceiling : d.maximum_frames_per_push ≤ maximum_jsonl_frames_per_push

pub new-IsBounded : (limit : ℕ) (d : Decoder) → new limit ≡ ok d → IsBounded d
unfolding new
new-IsBounded limit d h = ground (arith, IsLine-nil)

-- How a state of the loop relates to the decoder that the call began with.
pub record Follows (d d' : Decoder) (frames : ℕ) : Type 0 where
  pub bounded : IsBounded d'
  pub same_frame : d'.maximum_frame_bytes ≡ d.maximum_frame_bytes
  pub same_batch : d'.maximum_batch_bytes ≡ d.maximum_batch_bytes
  pub same_frames : d'.maximum_frames_per_push ≡ d.maximum_frames_per_push
  pub within : frames ≤ d.maximum_frames_per_push

abbrev pub Kept : {Value : Type 0} → Decoder → Round Value → Type 0
Kept d (going d' frames) = Follows d d' (length frames) × (d'.poisoned ≡ false)
Kept d (returned r) =
    Follows d r.decoder (length r.frames) × (r.decoder.poisoned ≡ true) × (r.terminal_error ≢ none)

Kept-after :
    {Value : Type 0} (d d' : Decoder) (n : ℕ) (r : Round Value)
    → Follows d d' n
    → Kept d' r
    → Kept d r
Kept-after d d' n (going d'' frames) f k = (
  record {
    bounded = k.0.bounded;
    same_frame = k.0.same_frame ∙ f.same_frame;
    same_batch = k.0.same_batch ∙ f.same_batch;
    same_frames = k.0.same_frames ∙ f.same_frames;
    within = omega (arith, k.0.within, f.same_frames);
  },
  k.1,
)
Kept-after d d' n (returned r) f k = (
  record {
    bounded = k.0.bounded;
    same_frame = k.0.same_frame ∙ f.same_frame;
    same_batch = k.0.same_batch ∙ f.same_batch;
    same_frames = k.0.same_frames ∙ f.same_frames;
    within = omega (arith, k.0.within, f.same_frames);
  },
  k.1,
  k.2,
)

module _ {Value : Type 0} (from_slice : List ℕ → Result Value String) where
  push_line-Kept :
      (d : Decoder) (frames : List Value) (segment : List ℕ)
      → IsBounded d
      → d.poisoned ≡ false
      → length frames ≤ d.maximum_frames_per_push
      → Kept d (push_line from_slice d frames segment)
  unfolding push_line extend_checked
  push_line-Kept d frames segment h open' le =
      elim (Result-cases (from_slice (pop_cr (d.buffer ++ segment)))) [
        | inl (frame, e) ↦ ground (arith, length-append frames (frame ∷ []), e, IsLine-nil)
        | inr (error, e) ↦ ground (arith, e, IsLine-nil)
      ]

  and_then-Kept :
      (d : Decoder) (r : Round Value) (k : Decoder → List Value → Round Value)
      → Kept d r
      → ((d' : Decoder) (frames : List Value)
          → Follows d d' (length frames)
          → d'.poisoned ≡ false
          → Kept d' (k d' frames))
      → Kept d (and_then from_slice r k)
  and_then-Kept d (going d' frames) k h next =
      Kept-after d d' (length frames) (k d' frames) h.0 (next d' frames h.0 h.1)
  and_then-Kept d (returned r) k h next = h

  pub push_lines-Kept :
      (segments : List (List ℕ)) (d : Decoder) (frames : List Value)
      → IsBounded d
      → d.poisoned ≡ false
      → length frames ≤ d.maximum_frames_per_push
      → Kept d (push_lines from_slice d frames segments)
  unfolding push_lines
  push_lines-Kept [] d frames h open' le = (
    record { bounded = h; same_frame = refl; same_batch = refl; same_frames = refl; within = le },
    open',
  )
  push_lines-Kept (segment ∷ segments) d frames h open' le =
      and_then-Kept d (push_line from_slice d frames segment) _
        (push_line-Kept d frames segment h open' le)
        λ d' frames' f still.
          push_lines-Kept segments d' frames' f.bounded still
            (omega (arith, f.within, f.same_frames))

  -- What `push` returns, seen with the decoder before it.
  abbrev Answers : Decoder → Decoded Value → Type 0
  Answers d r =
      Follows d r.decoder (length r.frames)
      × ((r.terminal_error ≡ none) ↔ (r.decoder.poisoned ≡ false))

  after_loop-Answers :
      (d : Decoder) (late : Bool) (remaining : List ℕ) (r : Round Value)
      → IsLine remaining
      → Kept d r
      → Answers d (after_loop from_slice late remaining r)
  unfolding extend_checked
  after_loop-Answers d late remaining (returned r) line k =
      (k.0, (λ e. absurd (k.2 e), λ e. cc (k.1)))
  after_loop-Answers d late remaining (going d' frames) line k =
      ground
        (arith, length-append d'.buffer remaining, IsLine-append d'.buffer remaining, IsLine-nil)

  push-Answers : (d : Decoder) (chunk : List ℕ) → IsBounded d → Answers d (push from_slice d chunk)
  unfolding push
  push-Answers d chunk h = elim (Bool-cases d.poisoned) [
    | inl shut ↦ simp shut (
      record {
        bounded = h;
        same_frame = refl;
        same_batch = refl;
        same_frames = refl;
        within = omega arith;
      },
      (λ e. cc, λ e. cc),
    )
    | inr open' ↦ simp open' (
        let kept = take (min (length chunk) d.maximum_batch_bytes) chunk in
        after_loop-Answers d (ltb d.maximum_batch_bytes (length chunk)) (split_lines kept).1
          (push_lines from_slice d [] (split_lines kept).0) (split_lines-rest kept)
          (push_lines-Kept (split_lines kept).0 d [] h open' (omega arith)))
  ]

  -- Every read, whatever its bytes, leaves a decoder within its bounds.
  pub push-IsBounded :
      (d : Decoder) (chunk : List ℕ) → IsBounded d → IsBounded (push from_slice d chunk).decoder
  push-IsBounded d chunk h = (push-Answers d chunk h).0.bounded

  -- A read returns at most as many frames as the fan-out limit, the module's ceiling included.
  pub push_frames-le :
      (d : Decoder) (chunk : List ℕ)
      → IsBounded d
      → (length (push from_slice d chunk).frames ≤ d.maximum_frames_per_push)
        × (length (push from_slice d chunk).frames ≤ maximum_jsonl_frames_per_push)
  push_frames-le d chunk h =
      let a = push-Answers d chunk h in (a.0.within, omega (arith, a.0.within, h.frames_ceiling))

  -- A read reports an error exactly if it leaves the decoder poisoned.
  pub push_error_iff :
      (d : Decoder) (chunk : List ℕ)
      → IsBounded d
      → ((push from_slice d chunk).terminal_error ≡ none)
        ↔ ((push from_slice d chunk).decoder.poisoned ≡ false)
  push_error_iff d chunk h = (push-Answers d chunk h).1

-- The end of input is clean exactly if no line is open and no error came before; otherwise the
-- decoder is left poisoned. Either way it stays within its bounds.
pub finish_cases :
    (d : Decoder)
    → IsBounded d
    → IsBounded (finish d).0
      × (((finish d).1 ≡ ok tt) ↔ ((d.poisoned ≡ false) × (d.buffer ≡ [])))
      × ((d.poisoned ≡ false) × (d.buffer ≢ []) → (finish d).1 ≡ err incomplete_frame)
      × ((finish d).1 ≢ ok tt → (finish d).0.poisoned ≡ true)
unfolding finish
finish_cases d h = ground (arith, IsLine-nil)
