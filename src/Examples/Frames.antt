-- ===== src/Examples/Frames.antt =====
-- `JsonLineDecoder` of crates/maestrod/src/fake_session.rs at concrete bytes.
use maestro_app.Prelude.{ℕ, ◌≡◌, refl, false, Option, none, some, List, [], ◌∷◌, arith}
use maestro_app.Daemon.Frames.{JsonLineDecoder, pop_return, push_byte, push_bytes, push, failure}
use maestro_app.Daemon.Frames.Lines.{Decodes}

-- A parser that takes a frame's first byte.
abbrev first_byte : List ℕ → Option ℕ
first_byte [] = none
first_byte (b ∷ bs) = some b

abbrev decoder : JsonLineDecoder
decoder = record { frame = []; maximum_frame_bytes = 4; failed = false }

blank_line_fails :
    (push first_byte decoder (b'\r' ∷ b'\n' ∷ [])).failed_with ≡ some (failure "empty_frame")
unfolding push push_bytes push_byte pop_return
blank_line_fails = refl

oversized_frame_fails :
    (push first_byte decoder (1 ∷ 2 ∷ 3 ∷ 4 ∷ 5 ∷ [])).failed_with
    ≡ some (failure "oversized_frame")
unfolding push push_bytes push_byte pop_return
oversized_frame_fails = refl

line-Decodes : Decodes first_byte 4 (7 ∷ 8 ∷ b'\r' ∷ []) 7
unfolding pop_return
line-Decodes = record {
  one = (refl, (refl, (refl, tt)));
  fits = omega arith;
  first = 7;
  others = 8 ∷ [];
  trimmed = refl;
  parses = refl;
}
