-- ===== src/Examples/Capture.antt =====
-- The bounded buffers of crates/maestrod/src/fake_session.rs at concrete streams.
use maestro_app.Prelude.{ℕ, ◌≡◌, true, refl, List, [], ◌∷◌}
use maestro_app.Daemon.Capture.{empty_bytes, push_bytes, pop_excess}
use maestro_app.Daemon.Capture.Stderr.{collects}

abbrev reads : List (List ℕ)
reads = (1 ∷ 2 ∷ []) ∷ (3 ∷ 4 ∷ []) ∷ []

newest_three : (collects empty_bytes 3 reads).bytes ≡ 2 ∷ 3 ∷ 4 ∷ []
unfolding push_bytes pop_excess
newest_three = refl

-- A stream that fills the limit exactly in one read is marked although nothing is lost.
full_read_is_marked : (collects empty_bytes 2 ((1 ∷ 2 ∷ []) ∷ [])).truncated ≡ true
unfolding push_bytes pop_excess
full_read_is_marked = refl
