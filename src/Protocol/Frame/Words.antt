-- ===== src/Protocol/Frame/Words.antt =====
-- The four bytes of a length, in crates/maestro-protocol/src/lib.rs.
use maestro_app.Prelude.{
  ℕ, ◌+◌, ◌*◌, ◌/◌, ◌%◌, ◌^◌, ◌<◌, ◌≡◌, refl, List, [], ◌∷◌, arith, length, All,
}
use maestro_app.Protocol.Frame.{to_be_bytes, from_be_bytes}

pub from_be_bytes-to_be_bytes : (n : ℕ) → n < 2 ^ 32 → from_be_bytes (to_be_bytes n) ≡ n
unfolding from_be_bytes to_be_bytes
from_be_bytes-to_be_bytes n h = omega arith

pub length-to_be_bytes : (n : ℕ) → length (to_be_bytes n) ≡ 4
unfolding to_be_bytes
length-to_be_bytes n = refl

-- Every byte is one.
abbrev pub IsByte : ℕ → Type 0
IsByte b = b < 256

pub to_be_bytes-from_be_bytes :
    (bytes : List ℕ)
    → length bytes ≡ 4
    → All IsByte bytes
    → to_be_bytes (from_be_bytes bytes) ≡ bytes
unfolding from_be_bytes to_be_bytes
to_be_bytes-from_be_bytes (a ∷ b ∷ c ∷ d ∷ []) h (p, (q, (r, (s, _)))) =
    let n = a * 2 ^ 24 + b * 2 ^ 16 + c * 2 ^ 8 + d in
    let first : n / 2 ^ 24 % 256 ≡ a = omega (arith, p, q, r, s) in
    let second : n / 2 ^ 16 % 256 ≡ b = omega (arith, p, q, r, s) in
    let third : n / 2 ^ 8 % 256 ≡ c = omega (arith, p, q, r, s) in
    let fourth : n % 256 ≡ d = omega (arith, p, q, r, s) in cc (first, second, third, fourth)
to_be_bytes-from_be_bytes _ h all = absurd (omega (arith, h))
