-- ===== src/Capture/Utf8.antt =====
-- `core::str::from_utf8` of the standard library: whether bytes are well-formed UTF-8.
use qubit.Base.{
  ℕ, zero, suc, Text, nat_eq, ◌==◌, ◌<◌, leb, if◌then◌else◌, ◌&&◌, Bool, true, false, Option, none,
  some, [], ◌∷◌, ◌≡◌, refl, arith,
}

abbrev within : ℕ → ℕ → ℕ → Bool
within lo hi c = leb lo c && leb c hi

-- `pending` bytes of a character are still to come, the next one between lo and hi.
unfoldable pub utf8_from : ℕ → ℕ → ℕ → Text → Bool
utf8_from zero lo hi [] = true
utf8_from (suc n) lo hi [] = false
utf8_from (suc n) lo hi (c ∷ s) = let rest = utf8_from n 128 191 s in within lo hi c && rest
utf8_from zero lo hi (c ∷ s) =
    let ascii = utf8_from 0 128 191 s in
    let two = utf8_from 1 128 191 s in
    let three = λ (a b : ℕ). utf8_from 2 a b s in
    let four = λ (a b : ℕ). utf8_from 3 a b s in
    if within 0 127 c
    then ascii
    else if within 194 223 c
    then two
    else if c == 224
    then three 160 191
    else if c == 237
    then three 128 159
    else if within 225 239 c
    then three 128 191
    else if c == 240
    then four 144 191
    else if within 241 243 c
    then four 128 191
    else if c == 244
    then four 128 143
    else false

unfoldable pub from_utf8 : Text → Option Text
from_utf8 s = if utf8_from 0 128 191 s then some s else none

-- Text in ASCII is well-formed.
abbrev pub IsAscii : Text → Type 0
IsAscii [] = Unit
IsAscii (c ∷ s) = (c < 128) × IsAscii s

utf8_from-IsAscii : (s : Text) → IsAscii s → utf8_from 0 128 191 s ≡ true
unfolding utf8_from
utf8_from-IsAscii [] h = refl
utf8_from-IsAscii (c ∷ s) h = ground (arith, utf8_from-IsAscii s h.1)

pub from_utf8-IsAscii : (s : Text) → IsAscii s → from_utf8 s ≡ some s
unfolding from_utf8
from_utf8-IsAscii s h = rw (utf8_from-IsAscii s h)
