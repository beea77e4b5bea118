-- ===== src/Prelude/Bytes.antt =====
-- Slices of bytes: `split`, `splitn`, `strip_prefix` and `String::from_utf8_lossy`.
use Prim.Native.Nat.{ℕ, zero, suc, ◌+◌, ◌-◌, ◌*◌}
use mathlib.Core.Path.{◌≡◌, refl, ap}
use mathlib.Core.Logic.{◌≢◌}
use mathlib.Core.Bool.{Bool, true, false, ◌&&◌, ◌||◌}
use mathlib.Core.List.{List, [], ◌∷◌, ◌++◌}
use mathlib.Core.Option.{Option, none, some}
use native.Mathlib.Omega.{arith}
use maestro_app.Prelude.Tests.{ltb, leb, ◌==◌, if◌then◌else◌, ==_iff}
use maestro_app.Prelude.Lists.{All, any}

abbrev pub cons_first : ℕ → List (List ℕ) → List (List ℕ)
cons_first b [] = (b ∷ []) ∷ []
cons_first b (field ∷ fields) = (b ∷ field) ∷ fields

-- `split`: there is a last field, which may be empty.
unfoldable pub split : ℕ → List ℕ → List (List ℕ)
split separator [] = [] ∷ []
split separator (b ∷ bytes) =
    let rest = split separator bytes in if b == separator then [] ∷ rest else cons_first b rest

-- `splitn`: the last of at most so many fields is all that is left.
unfoldable pub splitn : ℕ → ℕ → List ℕ → List (List ℕ)
splitn zero separator bytes = []
splitn (suc zero) separator bytes = bytes ∷ []
splitn (suc (suc more)) separator [] = [] ∷ []
splitn (suc (suc more)) separator (b ∷ bytes) = elim (b == separator) [
  | true ↦ [] ∷ splitn (suc more) separator bytes
  | false ↦ cons_first b (splitn (suc (suc more)) separator bytes)
]

-- `strip_prefix` of a slice.
unfoldable pub strip_bytes : List ℕ → List ℕ → Option (List ℕ)
strip_bytes bytes [] = some bytes
strip_bytes [] (p ∷ prefix) = none
strip_bytes (b ∷ bytes) (p ∷ prefix) =
    let rest = strip_bytes bytes prefix in if b == p then rest else none

unfoldable pub starts_with_bytes : List ℕ → List ℕ → Bool
unfolding strip_bytes
starts_with_bytes bytes prefix = elim (strip_bytes bytes prefix) [ none ↦ false | some rest ↦ true ]

-- `contains` of a text, and `to_ascii_lowercase`.
unfoldable pub contains_text : List ℕ → List ℕ → Bool
unfolding starts_with_bytes
contains_text [] needle = starts_with_bytes [] needle
contains_text (c ∷ text) needle =
    let rest = contains_text text needle in
    if starts_with_bytes (c ∷ text) needle then true else rest

abbrev pub ascii_lowercase : ℕ → ℕ
ascii_lowercase c = if leb b'A' c && leb c b'Z' then c + 32 else c

-- `char::is_whitespace` and `trim`, on code points.
unfoldable pub is_whitespace : ℕ → Bool
is_whitespace c =
    (leb 9 c && leb c 13)
    || ((leb 8192 c && leb c 8202)
        || any (λ w. c == w) (32 ∷ 133 ∷ 160 ∷ 5760 ∷ 8232 ∷ 8233 ∷ 8239 ∷ 8287 ∷ 12288 ∷ []))

unfoldable pub trim_start : List ℕ → List ℕ
unfolding is_whitespace
trim_start [] = []
trim_start (c ∷ text) = let rest = trim_start text in if is_whitespace c then rest else c ∷ text

abbrev unless_blank : ℕ → List ℕ → List ℕ
unfolding is_whitespace
unless_blank c [] = if is_whitespace c then [] else c ∷ []
unless_blank c (d ∷ rest) = c ∷ d ∷ rest

unfoldable pub trim_end : List ℕ → List ℕ
unfolding unless_blank
trim_end [] = []
trim_end (c ∷ text) = unless_blank c (trim_end text)

unfoldable pub trim : List ℕ → List ℕ
unfolding trim_start trim_end
trim text = trim_end (trim_start text)

-- A character of several bytes that is being read: how many are left after the next, and between
-- what bounds the next lies.
pub record Partial : Type 0 where
  pub left : ℕ
  pub low : ℕ
  pub high : ℕ
  pub value : ℕ

abbrev pub replacement : ℕ
replacement = 65533

abbrev partial : ℕ → ℕ → ℕ → ℕ → List ℕ × Option Partial
partial left low high value =
    ([], some (record { left = left; low = low; high = high; value = value }))

-- The first byte of a character. The bounds on the second leave out overlong forms, surrogates
-- and what lies above U+10FFFF.
unfoldable pub first_byte : ℕ → List ℕ × Option Partial
first_byte b =
    if ltb b 128
    then (b ∷ [], none)
    else if ltb b 194
    then (replacement ∷ [], none)
    else if ltb b 224
    then partial 0 128 191 (b - 192)
    else if ltb b 240
    then partial 1 (if b == 224 then 160 else 128) (if b == 237 then 159 else 191) (b - 224)
    else if ltb b 245
    then partial 2 (if b == 240 then 144 else 128) (if b == 244 then 143 else 191) (b - 240)
    else (replacement ∷ [], none)

unfoldable pub next_byte : Option Partial → ℕ → List ℕ × Option Partial
unfolding first_byte
next_byte none b = first_byte b
next_byte (some p) b =
    if leb p.low b && leb b p.high
    then if p.left == 0
      then ((p.value * 64 + (b - 128)) ∷ [], none)
      else partial (p.left - 1) 128 191 (p.value * 64 + (b - 128))
    else (replacement ∷ (first_byte b).0, (first_byte b).1)

unfoldable pub decode_from : Option Partial → List ℕ → List ℕ
unfolding next_byte
decode_from none [] = []
decode_from (some p) [] = replacement ∷ []
decode_from state (b ∷ bytes) = (next_byte state b).0 ++ decode_from (next_byte state b).1 bytes

-- The characters of `String::from_utf8_lossy`, by their code points.
unfoldable pub from_utf8_lossy : List ℕ → List ℕ
unfolding decode_from
from_utf8_lossy bytes = decode_from none bytes

-- No separator among the bytes.
abbrev pub IsFree : ℕ → List ℕ → Type 0
IsFree separator bytes = All (λ b. b ≢ separator) bytes

-- A field that is ended by the separator is split off, and one that has none is the only one.
pub split-append :
    (separator : ℕ) (field rest : List ℕ)
    → IsFree separator field
    → split separator (field ++ separator ∷ rest) ≡ field ∷ split separator rest
unfolding split
split-append separator [] rest h = rw ((==_iff separator separator).1 refl) refl
split-append separator (b ∷ field) rest h =
    ground (arith, h.0, split-append separator field rest h.1)

pub splitn-append :
    (more separator : ℕ) (field rest : List ℕ)
    → IsFree separator field
    → splitn (suc (suc more)) separator (field ++ separator ∷ rest)
      ≡ field ∷ splitn (suc more) separator rest
unfolding splitn
splitn-append more separator [] rest h = rw ((==_iff separator separator).1 refl, splitn) refl
splitn-append more separator (b ∷ field) rest h =
    ground (arith, h.0, splitn-append more separator field rest h.1)

pub decode_ascii :
    (bytes : List ℕ) → All (λ b. ltb b 128 ≡ true) bytes → from_utf8_lossy bytes ≡ bytes
unfolding from_utf8_lossy decode_from next_byte first_byte
decode_ascii [] h = refl
decode_ascii (b ∷ bytes) h = rw h.0 (ap (◌∷◌ b) (decode_ascii bytes h.1))
