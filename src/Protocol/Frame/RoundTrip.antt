-- ===== src/Protocol/Frame/RoundTrip.antt =====
-- Frames written and read in one piece (crates/maestro-protocol/src/lib.rs).
use maestro_app.Prelude.{
  ℕ, ◌+◌, ◌≤◌, ◌≡◌, ◌↔◌, refl, sym, ap, ◌∙◌, String, List, ◌++◌, arith, length, take, drop,
  take-drop, All, All-append_left, subst, Result, ok, inl, inr, Result-cases, length-take,
  length-drop,
}
use maestro_app.Protocol.Frame.{
  to_be_bytes, from_be_bytes, max_frame_bytes, encode_frame, decode_frame, decode_payload,
}
use maestro_app.Protocol.Frame.Words.{IsByte, from_be_bytes-to_be_bytes, to_be_bytes-from_be_bytes}

-- What the round trip asks of `rmp_serde`: it reads what it wrote.
abbrev pub IsCodec :
    {Value : Type 0} → (Value → Result (List ℕ) String) → (List ℕ → Result Value String) → Type 0
IsCodec {Value} to_vec from_read =
    (value : Value) (bytes : List ℕ) → to_vec value ≡ ok bytes → from_read bytes ≡ ok value

abbrev pub framed : List ℕ → List ℕ
framed payload = to_be_bytes (length payload) ++ payload

pub take-framed :
    (payload rest : List ℕ) → take 4 (framed payload ++ rest) ≡ to_be_bytes (length payload)
unfolding to_be_bytes
take-framed payload rest = refl

pub drop-framed : (payload rest : List ℕ) → drop 4 (framed payload ++ rest) ≡ payload ++ rest
unfolding to_be_bytes
drop-framed payload rest = refl

pub length-framed : (payload : List ℕ) → length (framed payload) ≡ length payload + 4
unfolding to_be_bytes
length-framed payload = omega arith

framed-head : (payload : List ℕ) → take 4 (framed payload) ≡ to_be_bytes (length payload)
unfolding to_be_bytes
framed-head payload = refl

framed-body : (payload : List ℕ) → drop 4 (framed payload) ≡ payload
unfolding to_be_bytes
framed-body payload = refl

-- The length that a frame announces, written again, is its first four bytes.
announced-take :
    (frame : List ℕ)
    → 4 ≤ length frame
    → All IsByte frame
    → length frame ≡ from_be_bytes (take 4 frame) + 4
    → frame ≡ framed (drop 4 frame)
announced-take frame h bytes e =
    let head : length (take 4 frame) ≡ 4 = omega (arith, length-take 4 frame, h) in
    let announced : length (drop 4 frame) ≡ from_be_bytes (take 4 frame) =
      omega (arith, length-drop 4 frame, e) in
    let first =
      All-append_left IsByte (take 4 frame) (drop 4 frame)
        (subst (All IsByte) (sym (take-drop 4 frame)) bytes) in
    sym (take-drop 4 frame)
    ∙ ap (λ bs. bs ++ drop 4 frame)
        (sym (ap to_be_bytes announced ∙ to_be_bytes-from_be_bytes (take 4 frame) head first))

module _ {Value : Type 0} (to_vec : Value → Result (List ℕ) String) where
  forward :
      (value : Value) (frame : List ℕ)
      → encode_frame to_vec value ≡ ok frame
      → (payload : List ℕ) × (to_vec value ≡ ok payload)
        × (length payload ≤ max_frame_bytes)
        × (frame ≡ framed payload)
  unfolding encode_frame
  forward value frame e = elim (Result-cases (to_vec value)) [
    | inl (payload, read) ↦ (payload, read, ground (arith, e, read), ground (arith, e, read))
    | inr (error, failed) ↦ absurd (ground (arith, e, failed))
  ]

  backward :
      (value : Value) (frame : List ℕ)
      → ((payload : List ℕ) × (to_vec value ≡ ok payload)
          × (length payload ≤ max_frame_bytes)
          × (frame ≡ framed payload))
      → encode_frame to_vec value ≡ ok frame
  unfolding encode_frame
  backward value frame (payload, read, short, e) = rw (read, e) (ground arith)

  -- A value is framed exactly if it encodes to at most the permitted number of bytes, and the frame
  -- is its length in four bytes, followed by them.
  pub encode_frame_iff :
      (value : Value) (frame : List ℕ)
      → (encode_frame to_vec value ≡ ok frame) ↔ (
          (payload : List ℕ) × (to_vec value ≡ ok payload)
          × (length payload ≤ max_frame_bytes)
          × (frame ≡ framed payload))
  encode_frame_iff value frame = (forward value frame, backward value frame)

module _ {Value : Type 0} (from_read : List ℕ → Result Value String) where
  pub decode_frame-framed :
      (payload : List ℕ) (value : Value)
      → length payload ≤ max_frame_bytes
      → from_read payload ≡ ok value
      → decode_frame from_read (framed payload) ≡ ok value
  unfolding decode_frame decode_payload
  decode_frame-framed payload value short read = ground (
    arith,
    read,
    length-framed payload,
    framed-head payload,
    framed-body payload,
    from_be_bytes-to_be_bytes (length payload) (omega (arith, short)),
  )

  parse :
      (frame : List ℕ) (value : Value)
      → All IsByte frame
      → decode_frame from_read frame ≡ ok value
      → (payload : List ℕ) × (frame ≡ framed payload)
        × (length payload ≤ max_frame_bytes)
        × (from_read payload ≡ ok value)
  unfolding decode_frame decode_payload
  parse frame value bytes e = (
    drop 4 frame,
    announced-take frame (ground (arith, e)) bytes (ground (arith, e)),
    ground (arith, e, length-drop 4 frame),
    ground (arith, e),
  )

  -- The bytes that decode to a value are exactly the frames of the payloads, within the limit,
  -- that MessagePack decodes to it: nothing is missing and nothing follows.
  pub decode_frame_iff :
      (frame : List ℕ) (value : Value)
      → All IsByte frame
      → (decode_frame from_read frame ≡ ok value) ↔ (
          (payload : List ℕ) × (frame ≡ framed payload)
          × (length payload ≤ max_frame_bytes)
          × (from_read payload ≡ ok value))
  decode_frame_iff frame value bytes = (
    parse frame value bytes,
    λ (payload, e, short, read). rw e (decode_frame-framed payload value short read),
  )
