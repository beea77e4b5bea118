-- ===== src/Daemon/Frames/Chunks.antt =====
-- One read and two reads of the same bytes by `JsonLineDecoder` of
-- crates/maestrod/src/fake_session.rs.
use maestro_app.Prelude.{
  ℕ, ◌≤◌, ◌≡◌, refl, sym, ap, ◌∙◌, Bool, true, false, Option, none, some, List, [], ◌∷◌, ◌++◌,
  arith, leb, ◌==◌, length, length-append, inl, inr, Bool-cases, Option-cases, subst, append-nil,
  append_assoc,
}
use maestro_app.Daemon.Frames.{
  ProtocolFailure, failure, JsonLineDecoder, pop_return, DecodeBatch, with_frame, batch, continue,
  parsed, end_line, push_byte, push_bytes, push,
}

module _ {Value : Type 0} (from_slice : List ℕ → Option Value) where
  -- A batch after earlier frames.
  abbrev pub prefixed : List Value → DecodeBatch Value → DecodeBatch Value
  prefixed frames b = record b { frames = frames ++ b.frames }

  parsed-prefixed :
      (d : JsonLineDecoder) (frames more : List Value) (v : Option Value)
      → parsed from_slice d (frames ++ more) v ≡ prefixed frames (parsed from_slice d more v)
  parsed-prefixed d frames more none = refl
  parsed-prefixed d frames more (some v) =
      ap (batch (with_frame d [])) (append_assoc frames more (v ∷ []))

  end_line-prefixed :
      (d : JsonLineDecoder) (frames more : List Value) (line : List ℕ)
      → end_line from_slice d (frames ++ more) line
        ≡ prefixed frames (end_line from_slice d more line)
  end_line-prefixed d frames more [] = refl
  end_line-prefixed d frames more (b ∷ bs) = parsed-prefixed d frames more (from_slice (b ∷ bs))

  push_byte-prefixed :
      (d : JsonLineDecoder) (frames more : List Value) (byte : ℕ)
      → push_byte from_slice d (frames ++ more) byte
        ≡ prefixed frames (push_byte from_slice d more byte)
  unfolding push_byte
  push_byte-prefixed d frames more byte =
      ground (arith, end_line-prefixed d frames more (pop_return d.frame))

  pub push_bytes-prefixed :
      (d : JsonLineDecoder) (frames more : List Value) (bytes : List ℕ)
      → push_bytes from_slice d (frames ++ more) bytes
        ≡ prefixed frames (push_bytes from_slice d more bytes)
  unfolding push_bytes
  push_bytes-prefixed d frames more [] = refl
  push_bytes-prefixed d frames more (byte ∷ bytes) =
      let b = push_byte from_slice d more byte in
      elim (Option-cases b.failed_with) [
        | inl goes ↦
            rw (push_byte-prefixed d frames more byte, goes)
              (push_bytes-prefixed b.decoder frames b.frames bytes)
        | inr (f, stops) ↦ rw (push_byte-prefixed d frames more byte, stops) refl
      ]

  pub push_bytes-start :
      (d : JsonLineDecoder) (frames : List Value) (bytes : List ℕ)
      → push_bytes from_slice d frames bytes ≡ prefixed frames (push_bytes from_slice d [] bytes)
  push_bytes-start d frames bytes =
      subst
        (λ l. push_bytes from_slice d l bytes ≡ prefixed frames (push_bytes from_slice d [] bytes))
        (append-nil frames) (push_bytes-prefixed d frames [] bytes)

  push_bytes-append :
      (d : JsonLineDecoder) (frames : List Value) (first second : List ℕ)
      → push_bytes from_slice d frames (first ++ second)
        ≡ continue
            (push_bytes from_slice d frames first)
            (push_bytes from_slice d frames first).failed_with
            (λ d' frames'. push_bytes from_slice d' frames' second)
  unfolding push_bytes
  push_bytes-append d frames [] second = refl
  push_bytes-append d frames (byte ∷ first) second =
      let b = push_byte from_slice d frames byte in
      elim (Option-cases b.failed_with) [
        | inl goes ↦ rw goes (push_bytes-append b.decoder b.frames first second)
        | inr (f, stops) ↦ ground (arith, stops)
      ]

  abbrev pub has_failed : Option ProtocolFailure → Bool
  has_failed none = false
  has_failed (some f) = true

  -- Within its limit, and failed exactly if a failure was reported.
  pub record IsKept (b : DecodeBatch Value) (limit : ℕ) : Type 0 where
    pub limited : b.decoder.maximum_frame_bytes ≡ limit
    pub short : length b.decoder.frame ≤ limit
    pub told : b.decoder.failed ≡ has_failed b.failed_with

  parsed-IsKept :
      (d : JsonLineDecoder) (frames : List Value) (v : Option Value)
      → d.failed ≡ false
      → IsKept (parsed from_slice d frames v) d.maximum_frame_bytes
  parsed-IsKept d frames none h = record { limited = refl; short = omega arith; told = refl }
  parsed-IsKept d frames (some v) h = record { limited = refl; short = omega arith; told = h }

  end_line-IsKept :
      (d : JsonLineDecoder) (frames : List Value) (line : List ℕ)
      → d.failed ≡ false
      → IsKept (end_line from_slice d frames line) d.maximum_frame_bytes
  end_line-IsKept d frames [] h = record { limited = refl; short = omega arith; told = refl }
  end_line-IsKept d frames (b ∷ bs) h = parsed-IsKept d frames (from_slice (b ∷ bs)) h

  push_byte-IsKept :
      (d : JsonLineDecoder) (frames : List Value) (byte : ℕ)
      → d.failed ≡ false
      → IsKept (push_byte from_slice d frames byte) d.maximum_frame_bytes
  unfolding push_byte
  push_byte-IsKept d frames byte h = elim (Bool-cases (byte == b'\n')) [
    | inl newline ↦ rw newline (end_line-IsKept d frames (pop_return d.frame) h)
    | inr other ↦ elim (Bool-cases (leb d.maximum_frame_bytes (length d.frame))) [
      | inl full ↦ rw (other, full) (record { limited = refl; short = omega arith; told = refl })
      | inr room ↦
          rw (other, room)
            (record {
              limited = refl;
              short = ground (arith, length-append d.frame (byte ∷ []));
              told = h;
            })
    ]
  ]

  push_bytes-IsKept :
      (d : JsonLineDecoder) (frames : List Value) (bytes : List ℕ)
      → length d.frame ≤ d.maximum_frame_bytes
      → d.failed ≡ false
      → IsKept (push_bytes from_slice d frames bytes) d.maximum_frame_bytes
  unfolding push_bytes
  push_bytes-IsKept d frames [] short h = record { limited = refl; short = short; told = h }
  push_bytes-IsKept d frames (byte ∷ bytes) short h =
      let b = push_byte from_slice d frames byte in
      let kept = push_byte-IsKept d frames byte h in
      elim (Option-cases b.failed_with) [
        | inl goes ↦ rw goes (
            subst (IsKept (push_bytes from_slice b.decoder b.frames bytes)) kept.limited (
              push_bytes-IsKept b.decoder b.frames bytes (omega (arith, kept.short, kept.limited))
                (kept.told ∙ ap has_failed goes)))
        | inr (f, stops) ↦ simp stops kept
      ]

  -- A read keeps the buffer within the frame limit and leaves the decoder failed exactly if it
  -- reports a failure.
  pub push-IsKept :
      (d : JsonLineDecoder) (bytes : List ℕ)
      → length d.frame ≤ d.maximum_frame_bytes
      → IsKept (push from_slice d bytes) d.maximum_frame_bytes
  unfolding push
  push-IsKept d bytes short = elim (Bool-cases d.failed) [
    | inl failed ↦ simp failed (record { limited = refl; short = short; told = failed })
    | inr sound ↦ simp sound (push_bytes-IsKept d [] bytes short sound)
  ]

  push_failed :
      (d : JsonLineDecoder) (bytes : List ℕ)
      → d.failed ≡ true
      → push from_slice d bytes
        ≡ record { decoder = d; frames = []; failed_with = some (failure "decoder_already_failed") }
  unfolding push
  push_failed d bytes failed = simp failed refl

  push_sound :
      (d : JsonLineDecoder) (bytes : List ℕ)
      → d.failed ≡ false
      → push from_slice d bytes ≡ push_bytes from_slice d [] bytes
  unfolding push
  push_sound d bytes sound = simp sound refl

  abbrev pub first_of : Option ProtocolFailure → Option ProtocolFailure → Option ProtocolFailure
  first_of none later = later
  first_of (some f) later = some f

  -- Two reads leave the same decoder, and give the same frames and the same first failure, as one
  -- read of their bytes together, whatever the bytes and wherever the cut.
  pub push-append :
      (d : JsonLineDecoder) (first second : List ℕ)
      → length d.frame ≤ d.maximum_frame_bytes
      → ((push from_slice d (first ++ second)).decoder
          ≡ (push from_slice (push from_slice d first).decoder second).decoder)
        × ((push from_slice d (first ++ second)).frames
            ≡ (push from_slice d first).frames
              ++ (push from_slice (push from_slice d first).decoder second).frames)
        × ((push from_slice d (first ++ second)).failed_with
            ≡ first_of
                (push from_slice d first).failed_with
                (push from_slice (push from_slice d first).decoder second).failed_with)
  push-append d first second short = elim (Bool-cases d.failed) [
    | inl failed ↦
        rw
          (
            push_failed d first failed,
            push_failed d second failed,
            push_failed d (first ++ second) failed,
          )
          (refl, refl, refl)
    | inr sound ↦
        let r = push_bytes from_slice d [] first in
        let kept = push_bytes-IsKept d [] first short sound in
        let whole = push_bytes-append d [] first second in
        elim (Option-cases r.failed_with) [
          | inl goes ↦
              let s = push_bytes from_slice r.decoder [] second in
              rw
                (
                  push_sound d first sound,
                  push_sound d (first ++ second) sound,
                  push_sound r.decoder second (kept.told ∙ ap has_failed goes),
                  whole,
                )
                (simp (goes, push_bytes-start r.decoder r.frames second) (refl, refl, refl))
          | inr (f, stops) ↦
              rw
                (
                  push_sound d first sound,
                  push_sound d (first ++ second) sound,
                  push_failed r.decoder second (kept.told ∙ ap has_failed stops),
                  whole,
                )
                (simp stops (refl, sym (append-nil r.frames), refl))
        ]
  ]
