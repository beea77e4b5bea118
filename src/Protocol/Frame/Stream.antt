-- ===== src/Protocol/Frame/Stream.antt =====
-- A stream of messages over a socket: `encode_frame` of crates/maestro-protocol/src/lib.rs on one
-- side, `read_frame_with_limit` of crates/maestrod/src/ipc.rs on the other.
use maestro_app.Prelude.{
  ℕ, ◌+◌, ◌≤◌, ◌≡◌, refl, sym, ap, ◌∙◌, subst, String, Option, none, some, List, [], ◌∷◌, ◌++◌,
  arith, length, length-take, take, drop, Result, ok, concat, take-append_left, take-eq_self,
  drop-append_right,
}
use maestro_app.Protocol.Frame.{
  to_be_bytes, from_be_bytes, max_frame_bytes, decode_payload, fill, read_body,
  read_frame_with_limit, IpcError, encode_frame,
}
use maestro_app.Protocol.Frame.RoundTrip.{
  IsCodec, framed, take-framed, drop-framed, encode_frame_iff, length-framed,
}
use maestro_app.Protocol.Frame.Words.{from_be_bytes-to_be_bytes, length-to_be_bytes}
use maestro_app.Protocol.Frame.Reader.{IsOpen, Filled, fill-Filled}

module _ {Value : Type 0} (from_read : List ℕ → Result Value String) where
  abbrev pub Reads : Value → List ℕ → Result (Option Value) IpcError × List (List ℕ) → Type 0
  Reads value later (result, rest) =
      (result ≡ ok (some value)) × (concat rest ≡ later) × IsOpen rest

  body_result :
      (payload prefix : List ℕ) (rest : List (List ℕ)) (maximum_bytes : ℕ) (value : Value)
      → length payload ≤ maximum_bytes
      → length payload ≤ max_frame_bytes
      → from_read payload ≡ ok value
      → length prefix ≡ 4
      → from_be_bytes prefix ≡ length payload
      → (fill (length payload) rest).0 ≡ payload
      → read_body from_read maximum_bytes (prefix, rest)
        ≡ (ok (some value), (fill (length payload) rest).1)
  unfolding decode_payload
  body_result payload prefix rest maximum_bytes value short fits read four announced body =
      ground (arith, read, four, announced, body, ap length body)

  body_step :
      (payload later prefix : List ℕ) (rest : List (List ℕ)) (maximum_bytes : ℕ) (value : Value)
      → length payload ≤ maximum_bytes
      → length payload ≤ max_frame_bytes
      → from_read payload ≡ ok value
      → Filled 4 (framed payload ++ later) (prefix, rest)
      → Reads value later (read_body from_read maximum_bytes (prefix, rest))
  body_step payload later prefix rest maximum_bytes value short fits read (got, left, more) =
      let n = length payload in
      let header : prefix ≡ to_be_bytes n = got ∙ take-framed payload later in
      let announced : from_be_bytes prefix ≡ n =
        ap from_be_bytes header ∙ from_be_bytes-to_be_bytes n (omega (arith, fits)) in
      let four : length prefix ≡ 4 = ap length header ∙ length-to_be_bytes n in
      let (got', left', more') = fill-Filled n rest more in
      let body : (fill n rest).0 ≡ payload =
        got'
        ∙ ap (take n) (left ∙ drop-framed payload later)
        ∙ take-append_left n payload later (omega arith)
        ∙ take-eq_self n payload (omega arith) in
      let tail : concat (fill n rest).1 ≡ later =
        left'
        ∙ ap (drop n) (left ∙ drop-framed payload later)
        ∙ drop-append_right 0 n payload later (omega arith) in
      let result : read_body from_read maximum_bytes (prefix, rest)
          ≡ (ok (some value), (fill n rest).1) =
        body_result payload prefix rest maximum_bytes value short fits read four announced body in
      subst (Reads value later) (sym result) (refl, tail, more')

  read_step :
      (payload later : List ℕ) (pieces : List (List ℕ)) (maximum_bytes : ℕ) (value : Value)
      → length payload ≤ maximum_bytes
      → length payload ≤ max_frame_bytes
      → from_read payload ≡ ok value
      → IsOpen pieces
      → concat pieces ≡ framed payload ++ later
      → Reads value later (read_frame_with_limit from_read pieces maximum_bytes)
  unfolding read_frame_with_limit
  read_step payload later pieces maximum_bytes value short fits read h e =
      body_step payload later (fill 4 pieces).0 (fill 4 pieces).1 maximum_bytes value short fits
        read (subst (λ bytes. Filled 4 bytes (fill 4 pieces)) e (fill-Filled 4 pieces h))

  ended :
      (pieces : List (List ℕ)) (maximum_bytes : ℕ)
      → IsOpen pieces
      → concat pieces ≡ []
      → (read_frame_with_limit from_read pieces maximum_bytes).0 ≡ ok none
  unfolding read_frame_with_limit
  ended pieces maximum_bytes h e =
      let (got, _, _) = fill-Filled 4 pieces h in
      ground (arith, got, ap length got, length-take 4 (concat pieces), ap length e)

  -- The pieces give the values one after the other, and then a clean end.
  abbrev pub ReadsAll : List Value → List (List ℕ) → ℕ → Type 0
  ReadsAll [] pieces maximum_bytes =
      (read_frame_with_limit from_read pieces maximum_bytes).0 ≡ ok none
  ReadsAll (value ∷ values) pieces maximum_bytes =
      ((read_frame_with_limit from_read pieces maximum_bytes).0 ≡ ok (some value))
      × ReadsAll values (read_frame_with_limit from_read pieces maximum_bytes).1 maximum_bytes

module _ {Value : Type 0} (to_vec : Value → Result (List ℕ) String)
    (from_read : List ℕ → Result Value String) where
  -- The frames of the values, each of which fits the reader's limit.
  abbrev pub Encoded : ℕ → List Value → List (List ℕ) → Type 0
  Encoded maximum_bytes [] [] = Unit
  Encoded maximum_bytes [] (f ∷ fs) = ⊥
  Encoded maximum_bytes (v ∷ vs) [] = ⊥
  Encoded maximum_bytes (v ∷ vs) (f ∷ fs) =
      (encode_frame to_vec v ≡ ok f) × (length f ≤ maximum_bytes + 4) × Encoded maximum_bytes vs fs

  -- The frames that `encode_frame` makes of any messages, sent one after the other and delivered in
  -- pieces cut anywhere, are read back as exactly those messages in order, followed by a clean end of
  -- input, if MessagePack reads what it wrote and no payload exceeds the reader's limit.
  pub reads-encode_frame :
      (values : List Value) (frames pieces : List (List ℕ)) (maximum_bytes : ℕ)
      → IsCodec to_vec from_read
      → Encoded maximum_bytes values frames
      → IsOpen pieces
      → concat pieces ≡ concat frames
      → ReadsAll from_read values pieces maximum_bytes
  reads-encode_frame [] [] pieces maximum_bytes codec enc h e =
      ended from_read pieces maximum_bytes h e
  reads-encode_frame [] (f ∷ fs) pieces maximum_bytes codec enc h e = absurd enc
  reads-encode_frame (v ∷ vs) [] pieces maximum_bytes codec enc h e = absurd enc
  reads-encode_frame (v ∷ vs) (f ∷ fs) pieces maximum_bytes codec enc h e =
      let (payload, written, fits, same) = (encode_frame_iff to_vec v f).0 enc.0 in
      let (read, left, more) =
        read_step from_read payload (concat fs) pieces maximum_bytes v
          (omega (arith, enc.1, ap length same, length-framed payload)) fits
          (codec v payload written) h (e ∙ ap (λ bs. bs ++ concat fs) same) in
      (read, reads-encode_frame vs fs _ maximum_bytes codec enc.2 more left)
