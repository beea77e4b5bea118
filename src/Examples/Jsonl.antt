-- ===== src/Examples/Jsonl.antt =====
-- crates/maestro-adapter/src/jsonl.rs: its unit tests, and the theorems at concrete streams.
use maestro_app.Prelude.{
  ℕ, ◌≡◌, ◌↔◌, ◌≤◌, refl, String, Bool, true, false, none, List, [], ◌∷◌, ◌++◌, arith, All, leb,
  all, if◌then◌else◌, Result, ok, err, codes,
}
use maestro_app.Adapter.Jsonl.{
  Decoder, clean, failed, poison, frame_too_large, new, push, encode_json_line,
}
use maestro_app.Adapter.Jsonl.Bounds.{IsBounded, new-IsBounded, push-IsBounded, push_error_iff}
use maestro_app.Adapter.Jsonl.Frames.{
  IsCompact, ReadsBack, push_all, push_all-concat, encode_all, push-encode_all,
}

-- A toy of the JSON crate: a value is its own text, without control characters.
abbrev plain : List ℕ → Bool
plain = all (leb 32)

abbrev parse : List ℕ → Result (List ℕ) String
parse bytes = if plain bytes then ok bytes else err "control character"

abbrev print : List ℕ → Result (List ℕ) String
print = parse

plain-All : (bs : List ℕ) → plain bs ≡ true → All (λ b. 32 ≤ b) bs
plain-All [] h = tt
plain-All (b ∷ bs) h = (ground arith, plain-All bs (ground arith))

print-plain : (v bytes : List ℕ) → print v ≡ ok bytes → (plain bytes ≡ true) × (v ≡ bytes)
print-plain v bytes h = ground arith

toy-IsCompact : IsCompact print
toy-IsCompact = record { no_control = λ v bytes h. plain-All bytes (print-plain v bytes h).0 }

toy-ReadsBack : (v : List ℕ) → ReadsBack parse print v
toy-ReadsBack v bytes h = let (p, e) = print-plain v bytes h in rw (p, e) refl

abbrev decoder : Decoder
decoder = record {
  maximum_frame_bytes = 8;
  maximum_batch_bytes = 36;
  maximum_frames_per_push = 1024;
  buffer = [];
  poisoned = false;
}

new_decoder : new 8 ≡ ok decoder
unfolding new
new_decoder = refl

decoder-IsBounded : IsBounded decoder
decoder-IsBounded = new-IsBounded 8 decoder new_decoder

abbrev two_frames : List ℕ
two_frames = codes "{}" ++ b'\n' ∷ codes "[1]" ++ b'\r' ∷ b'\n' ∷ []

two_frames_decode : push parse decoder two_frames ≡ clean decoder (codes "{}" ∷ codes "[1]" ∷ [])
unfolding push
two_frames_decode = refl

oversized_is_not_buffered :
    push parse decoder (codes "123456789") ≡ failed (poison decoder) [] (frame_too_large 8)
unfolding push
oversized_is_not_buffered = refl

valid_prefix_survives :
    push parse decoder (codes "{}" ++ b'\n' ∷ codes "123456789" ++ b'\n' ∷ [])
    ≡ failed (poison decoder) (codes "{}" ∷ []) (frame_too_large 8)
unfolding push
valid_prefix_survives = refl

new-IsBounded_example : IsBounded decoder
new-IsBounded_example = new-IsBounded 8 decoder new_decoder

push-IsBounded_example : IsBounded (push parse decoder two_frames).decoder
push-IsBounded_example = push-IsBounded parse decoder two_frames decoder-IsBounded

push_error_iff_example :
    ((push parse decoder two_frames).terminal_error ≡ none)
    ↔ ((push parse decoder two_frames).decoder.poisoned ≡ false)
push_error_iff_example = push_error_iff parse decoder two_frames decoder-IsBounded

push_all-concat_example :
    push_all parse decoder (codes "{" ∷ [] ∷ (codes "}" ++ b'\n' ∷ []) ∷ [])
    ≡ (decoder, codes "{}" ∷ [])
unfolding push
push_all-concat_example =
    push_all-concat parse (codes "{" ∷ [] ∷ (codes "}" ++ b'\n' ∷ []) ∷ []) decoder decoder
      (codes "{}" ∷ []) decoder-IsBounded refl refl

push-encode_all_example :
    push parse decoder (codes "{}" ++ b'\n' ∷ codes "[1]" ++ b'\n' ∷ [])
    ≡ clean decoder (codes "{}" ∷ codes "[1]" ∷ [])
unfolding encode_json_line encode_all
push-encode_all_example =
    push-encode_all parse print toy-IsCompact 8 (codes "{}" ∷ codes "[1]" ∷ [])
      (codes "{}" ++ b'\n' ∷ codes "[1]" ++ b'\n' ∷ []) decoder new_decoder refl
      (toy-ReadsBack (codes "{}"), (toy-ReadsBack (codes "[1]"), tt)) (omega arith) (omega arith)
