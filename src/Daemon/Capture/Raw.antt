-- ===== src/Daemon/Capture/Raw.antt =====
-- What the capture of a run's stdout (crates/maestrod/src/fake_session.rs) holds.
use maestro_app.Prelude.{
  ℕ, ◌-◌, min, ◌≡◌, refl, sym, ap, ◌∙◌, ◌||◌, List, [], ◌∷◌, ◌++◌, arith, ltb, leb, length,
  length-append, length-take, take, take-min, take-eq_self, take-append, append-nil, append_assoc,
  subst, u64_max, concat,
}
use maestro_app.Daemon.Capture.{RawProtocolCaptureState, new_capture, push_capture}

-- The capture holds the head of the stream, counts all of it, and says when that is not exact.
pub record Head (c : RawProtocolCaptureState) (limit : ℕ) (stream : List ℕ) : Type 0 where
  pub head : c.bytes ≡ take limit stream
  pub counted : c.observed_byte_count ≡ min (length stream) u64_max
  pub flagged : c.truncated ≡ (ltb limit (length stream) || leb u64_max (length stream))

push_capture-head :
    (bytes : List ℕ) (limit : ℕ) (stream input : List ℕ)
    → bytes ≡ take limit stream
    → bytes ++ take (min (limit - length bytes) (length input)) input ≡ take limit (stream ++ input)
push_capture-head bytes limit stream input e =
    ap (λ t. bytes ++ t)
      (take-min (limit - length stream) (min (limit - length bytes) (length input)) input
        (omega (arith, ap length e, length-take limit stream)))
    ∙ ap (λ bs. bs ++ take (limit - length stream) input) e
    ∙ sym (take-append limit (limit - length stream) stream input refl)

push_capture-Head :
    (c : RawProtocolCaptureState) (limit : ℕ) (stream input : List ℕ)
    → Head c limit stream
    → Head (push_capture c input limit) limit (stream ++ input)
unfolding push_capture
push_capture-Head c limit stream input h = record {
  head = push_capture-head c.bytes limit stream input h.head;
  counted = omega (arith, h.counted, length-append stream input);
  flagged = ground (
    arith,
    h.flagged,
    h.counted,
    ap length h.head,
    length-take limit stream,
    length-append stream input,
  );
}

abbrev pub captures : RawProtocolCaptureState → ℕ → List (List ℕ) → RawProtocolCaptureState
captures c limit [] = c
captures c limit (input ∷ reads) = captures (push_capture c input limit) limit reads

captures-Head :
    (reads : List (List ℕ)) (c : RawProtocolCaptureState) (limit : ℕ) (stream : List ℕ)
    → Head c limit stream
    → Head (captures c limit reads) limit (stream ++ concat reads)
captures-Head [] c limit stream h = rw (append-nil stream) h
captures-Head (input ∷ reads) c limit stream h =
    subst (Head (captures (push_capture c input limit) limit reads) limit)
      (append_assoc stream input (concat reads))
      (captures-Head reads (push_capture c input limit) limit (stream ++ input)
        (push_capture-Head c limit stream input h))

-- However stdout is cut into reads, the capture of a run holds exactly its first `limit` bytes,
-- counts all bytes up to the largest 64-bit number, and is marked truncated exactly if there were
-- more than `limit` bytes or the count is saturated.
pub captures-new :
    (run_id limit : ℕ) (reads : List (List ℕ))
    → ((captures (new_capture run_id) limit reads).bytes ≡ take limit (concat reads))
      × ((captures (new_capture run_id) limit reads).observed_byte_count
          ≡ min (length (concat reads)) u64_max)
      × ((captures (new_capture run_id) limit reads).truncated
          ≡ (ltb limit (length (concat reads)) || leb u64_max (length (concat reads))))
unfolding new_capture
captures-new run_id limit reads =
    let h = captures-Head reads (new_capture run_id) limit [] (record {
      head = sym (take-eq_self limit [] (omega arith));
      counted = refl;
      flagged = ground arith;
    }) in
    (h.head, h.counted, h.flagged)
