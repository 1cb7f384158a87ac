-- ===== src/Base/Bytes.antt =====
-- A `String` of the program is the list of its UTF-8 bytes. Every test that the program makes on
-- texts compares or cuts them at ASCII bytes, which no other character's encoding contains.
use Prim.Native.Nat.{ℕ}
use Prim.Native.Char.{code}
use Prim.Native.String.{String}
use qubit.Base.Equality.{Eq}
use mathlib.Core.Path.{refl, ap₂}
use mathlib.Core.List.{List, [], ◌∷◌}
use native.Mathlib.Decide.{ℕ_discrete}

abbrev pub Text : Type 0
Text = List ℕ

-- A literal of the source, which is ASCII.
abbrev pub codes : String → Text
codes String.[] = []
codes (String.◌∷◌ c s) = code c ∷ codes s

unfoldable pub text_dec : Discrete Text
text_dec [] [] = yes refl
text_dec [] (b ∷ t) = no (λ p. cc)
text_dec (a ∷ s) [] = no (λ p. cc)
text_dec (a ∷ s) (b ∷ t) = elim (ℕ_discrete a b) [
  | yes p ↦ elim (text_dec s t) [ yes q ↦ yes (ap₂ ◌∷◌ p q) | no n ↦ no (λ r. n (cc)) ]
  | no n ↦ no (λ r. n (cc))
]

instance abbrev pub text_eq : Eq Text
text_eq = record { dec = text_dec }
