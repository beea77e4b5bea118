-- ===== src/Protocol/Frame/Reader.antt =====
-- Frames read from a socket (`read_frame_with_limit` of crates/maestrod/src/ipc.rs), in terms of the
-- bytes that arrive.
use maestro_app.Prelude.{
  ℕ, zero, suc, ◌+◌, ◌-◌, ◌<◌, ◌≤◌, ◌≡◌, refl, sym, ap, ◌∙◌, String, false, Option, none, List, [],
  ◌∷◌, ◌++◌, arith, length, length-take, length-drop, take, drop, All, ltb, leb, ◌==◌,
  if◌then◌else◌, Result, ok, err, inl, inr, Bool-cases, min, concat, take-append, take-append_left,
  take-eq_self, drop-nil, drop-append_left, drop-append_right,
}
use maestro_app.Protocol.Frame.{
  from_be_bytes, max_frame_bytes, decode_payload, fill, received, read_body, read_frame_with_limit,
  IpcError, truncated_prefix, frame_exceeds, unexpected_eof,
}

-- Until the end of input no piece is empty.
abbrev pub IsOpen : List (List ℕ) → Type 0
IsOpen = All (λ piece. 0 < length piece)

take_more :
    (n : ℕ) (piece later : List ℕ)
    → length piece ≤ n
    → take n (piece ++ later) ≡ piece ++ take (n - length piece) later
take_more n piece later h =
    take-append n (n - length piece) piece later refl
    ∙ ap (λ bs. bs ++ take (n - length piece) later) (take-eq_self n piece h)

-- What a loop of reads gives, in terms of the bytes alone.
abbrev pub Filled : ℕ → List ℕ → List ℕ × List (List ℕ) → Type 0
Filled missing bytes (got, rest) =
    (got ≡ take missing bytes) × (concat rest ≡ drop missing bytes) × IsOpen rest

pub fill-Filled :
    (missing : ℕ) (pieces : List (List ℕ))
    → IsOpen pieces
    → Filled missing (concat pieces) (fill missing pieces)
unfolding fill
fill-Filled missing [] h = (sym (take-eq_self missing [] (omega arith)), sym (drop-nil missing), tt)
fill-Filled zero (piece ∷ pieces) h = (refl, refl, h)
fill-Filled (suc m) (piece ∷ pieces) h =
    let wanting : (suc m == 0) ≡ false = ground arith in
    let filled : (length piece == 0) ≡ false = ground (arith, h.0) in
    elim (Bool-cases (leb (length piece) (suc m))) [
      | inl whole ↦
          let (got, left, more) = fill-Filled (suc m - length piece) pieces h.1 in
          rw (wanting, filled, whole)
            (
              ap (λ bs. piece ++ bs) got
                  ∙ sym (take_more (suc m) piece (concat pieces) (ground (arith, whole))),
              left
                  ∙ sym (
                      drop-append_right (suc m - length piece) (suc m) piece (concat pieces)
                        (ground (arith, whole))),
              more,
            )
      | inr part ↦
          rw (wanting, filled, part)
            (
              sym (take-append_left (suc m) piece (concat pieces) (ground (arith, part))),
              sym (drop-append_left (suc m) piece (concat pieces) (ground (arith, part))),
              (ground (arith, part, length-drop (suc m) piece), h.1),
            )
    ]

module _ {Value : Type 0} (from_read : List ℕ → Result Value String) where
  -- What a read makes of the bytes that arrive.
  unfoldable pub read_bytes : List ℕ → ℕ → Result (Option Value) IpcError
  read_bytes bytes maximum_bytes =
      let announced = from_be_bytes (take 4 bytes) in
      let maximum = min maximum_bytes max_frame_bytes in
      if length bytes == 0
      then ok none
      else if ltb (length bytes) 4
      then err (truncated_prefix (length bytes))
      else if ltb maximum announced
      then err (frame_exceeds announced maximum)
      else if ltb (length bytes) (announced + 4)
      then err unexpected_eof
      else received from_read (decode_payload from_read (take announced (drop 4 bytes)))

  read_body-bytes :
      (bytes prefix : List ℕ) (rest : List (List ℕ)) (maximum_bytes : ℕ)
      → Filled 4 bytes (prefix, rest)
      → (read_body from_read maximum_bytes (prefix, rest)).0 ≡ read_bytes bytes maximum_bytes
  unfolding read_bytes
  read_body-bytes bytes prefix rest maximum_bytes (got, left, more) =
      let payload = fill (from_be_bytes prefix) rest in
      let (got', _, _) = fill-Filled (from_be_bytes prefix) rest more in
      let read : payload.0 ≡ take (from_be_bytes prefix) (drop 4 bytes) =
        got' ∙ ap (take (from_be_bytes prefix)) left in
      ground (
        arith,
        got,
        ap length got,
        ap from_be_bytes got,
        read,
        ap length read,
        length-take 4 bytes,
        length-drop 4 bytes,
        length-take (from_be_bytes prefix) (drop 4 bytes),
      )

  -- However the bytes are cut into pieces, a read gives what the bytes alone determine: nothing at the
  -- end of input, an error for a cut prefix, an announced length beyond the limit or a missing
  -- payload, and otherwise what the payload decodes to.
  pub read_frame_with_limit-bytes :
      (pieces : List (List ℕ)) (maximum_bytes : ℕ)
      → IsOpen pieces
      → (read_frame_with_limit from_read pieces maximum_bytes).0
        ≡ read_bytes (concat pieces) maximum_bytes
  unfolding read_frame_with_limit
  read_frame_with_limit-bytes pieces maximum_bytes h =
      read_body-bytes (concat pieces) (fill 4 pieces).0 (fill 4 pieces).1 maximum_bytes
        (fill-Filled 4 pieces h)
