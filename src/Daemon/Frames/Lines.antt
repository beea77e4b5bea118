-- ===== src/Daemon/Frames/Lines.antt =====
-- What `JsonLineDecoder` of crates/maestrod/src/fake_session.rs decodes.
use maestro_app.Prelude.{
  ℕ, ◌+◌, ◌≤◌, ◌≡◌, refl, sym, ap, ◌∙◌, false, Option, some, List, [], ◌∷◌, ◌++◌, arith, leb, ◌==◌,
  length, length-append, All, append-nil, append_assoc, ok,
}
use maestro_app.Daemon.Frames.{
  JsonLineDecoder, new, pop_return, with_frame, batch, continue, push_byte, push_bytes, push,
  finish,
}

-- No newline among the bytes.
abbrev pub IsOneLine : List ℕ → Type 0
IsOneLine line = All (λ byte. (byte == b'\n') ≡ false) line

module _ {Value : Type 0} (from_slice : List ℕ → Option Value) where
  feed :
      (d : JsonLineDecoder) (frames : List Value) (line rest : List ℕ)
      → IsOneLine line
      → length d.frame + length line ≤ d.maximum_frame_bytes
      → push_bytes from_slice d frames (line ++ rest)
        ≡ push_bytes from_slice (with_frame d (d.frame ++ line)) frames rest
  unfolding push_bytes push_byte
  feed d frames [] rest one fits =
      ap (λ f. push_bytes from_slice (with_frame d f) frames rest) (sym (append-nil d.frame))
  feed d frames (byte ∷ line) rest one fits =
      let room : leb d.maximum_frame_bytes (length d.frame) ≡ false = ground arith in
      simp (one.0, room)
        (feed (with_frame d (d.frame ++ byte ∷ [])) frames line rest one.1
            (omega (arith, length-append d.frame (byte ∷ [])))
          ∙ ap (λ f. push_bytes from_slice (with_frame d f) frames rest)
              (append_assoc d.frame (byte ∷ []) line))

  -- A line that decodes to `value`: without its carriage return it is not empty, and it parses.
  pub record Decodes (limit : ℕ) (line : List ℕ) (value : Value) : Type 0 where
    pub one : IsOneLine line
    pub fits : length line ≤ limit
    pub first : ℕ
    pub others : List ℕ
    pub trimmed : pop_return line ≡ first ∷ others
    pub parses : from_slice (first ∷ others) ≡ some value

  newline_step :
      (limit : ℕ) (frames : List Value) (line : List ℕ) (value : Value)
      → Decodes limit line value
      → push_byte from_slice (with_frame (new limit) line) frames b'\n'
        ≡ batch (new limit) (frames ++ value ∷ [])
  unfolding push_byte new
  newline_step limit frames line value l = simp (l.trimmed, l.parses) refl

  line_step :
      (limit : ℕ) (frames : List Value) (line rest : List ℕ) (value : Value)
      → Decodes limit line value
      → push_bytes from_slice (new limit) frames (line ++ b'\n' ∷ rest)
        ≡ push_bytes from_slice (new limit) (frames ++ value ∷ []) rest
  unfolding push_bytes new
  line_step limit frames line rest value l =
      feed (new limit) frames line (b'\n' ∷ rest) l.one (omega (arith, l.fits))
      ∙ ap (λ b. continue b b.failed_with (λ d' frames'. push_bytes from_slice d' frames' rest))
          (newline_step limit frames line value l)

  abbrev pub stream_of : List (List ℕ) → List ℕ
  stream_of [] = []
  stream_of (line ∷ lines) = line ++ b'\n' ∷ stream_of lines

  abbrev pub DecodeAll : ℕ → List (List ℕ) → List Value → Type 0
  DecodeAll limit [] [] = Unit
  DecodeAll limit [] (v ∷ vs) = ⊥
  DecodeAll limit (l ∷ ls) [] = ⊥
  DecodeAll limit (l ∷ ls) (v ∷ vs) = Decodes limit l v × DecodeAll limit ls vs

  lines_step :
      (limit : ℕ) (frames : List Value) (lines : List (List ℕ)) (values : List Value)
      → DecodeAll limit lines values
      → push_bytes from_slice (new limit) frames (stream_of lines)
        ≡ batch (new limit) (frames ++ values)
  unfolding push_bytes
  lines_step limit frames [] [] h = ap (batch (new limit)) (sym (append-nil frames))
  lines_step limit frames [] (v ∷ vs) h = absurd h
  lines_step limit frames (l ∷ ls) [] h = absurd h
  lines_step limit frames (l ∷ ls) (v ∷ vs) h =
      line_step limit frames l (stream_of ls) v h.0
      ∙ lines_step limit (frames ++ v ∷ []) ls vs h.1
      ∙ ap (batch (new limit)) (append_assoc frames (v ∷ []) vs)

  -- A stream of complete lines, each within the limit, not blank and parsed by serde_json, decodes to
  -- exactly their values in order, and the decoder is as new, so that the end of input is clean.
  pub push-lines :
      (limit : ℕ) (lines : List (List ℕ)) (values : List Value)
      → DecodeAll limit lines values
      → (push from_slice (new limit) (stream_of lines) ≡ batch (new limit) values)
        × (finish (push from_slice (new limit) (stream_of lines)).decoder ≡ ok tt)
  unfolding push new finish
  push-lines limit lines values h =
      let whole = lines_step limit [] lines values h in (whole, ap (λ b. finish b.decoder) whole)
