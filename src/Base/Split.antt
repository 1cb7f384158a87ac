-- ===== src/Base/Split.antt =====
-- `str::split` and its relatives at an ASCII byte, and `str::contains`.
use Prim.Native.Nat.{ℕ, zero, suc}
use qubit.Base.Bytes.{Text}
use qubit.Base.Equality.{nat_eq, ◌==◌, contains, if◌then◌else◌}
use mathlib.Core.Path.{◌≡◌, refl}
use mathlib.Core.Logic.{◌≢◌}
use mathlib.Core.Bool.{Bool, true, false, ◌&&◌, ◌||◌}
use mathlib.Core.Option
use mathlib.Core.Option.{Option, none, some}
use mathlib.Core.List.{List, [], ◌∷◌, ◌++◌}
use native.Mathlib.Omega.{arith}

-- `split_once` at a byte: what stands before its first occurrence, and what stands after.
unfoldable pub cut : ℕ → Text → Option (Text × Text)
cut sep [] = none
cut sep (c ∷ s) =
    let rest = cut sep s in
    if c == sep then some ([], s) else Option.map (λ (p : Text × Text). (c ∷ p.0, p.1)) rest

-- `s.split(sep).next()`
unfoldable pub head_of_split : ℕ → Text → Text
head_of_split sep s = elim (cut sep s) [ none ↦ s | some (a, b) ↦ a ]

-- `s.splitn(n, sep)`, for n at least one
unfoldable pub splitn : ℕ → ℕ → Text → List Text
splitn zero sep s = []
splitn (suc zero) sep s = s ∷ []
splitn (suc (suc n)) sep s = elim (cut sep s) [
  | none ↦ s ∷ []
  | some (a, b) ↦ a ∷ splitn (suc n) sep b
]

add_to_head : ℕ → List Text → List Text
add_to_head c [] = (c ∷ []) ∷ []
add_to_head c (p ∷ ps) = (c ∷ p) ∷ ps

-- `s.split(sep).collect()`
unfoldable pub split : ℕ → Text → List Text
unfolding add_to_head
split sep [] = [] ∷ []
split sep (c ∷ s) = let rest = split sep s in if c == sep then [] ∷ rest else add_to_head c rest

unfoldable pub starts_with : Text → Text → Bool
starts_with s [] = true
starts_with [] (p ∷ ps) = false
starts_with (c ∷ s) (p ∷ ps) = c == p && starts_with s ps

-- `s.contains(pattern)` for a text
unfoldable pub contains_text : Text → Text → Bool
contains_text [] p = starts_with [] p
contains_text (c ∷ s) p = starts_with (c ∷ s) p || contains_text s p

-- A text in which a byte does not occur.
abbrev pub Lacks : ℕ → Text → Type 0
Lacks c [] = Unit
Lacks c (x ∷ s) = (x ≢ c) × Lacks c s

pub Lacks-append : (c : ℕ) (s t : Text) → Lacks c s → Lacks c t → Lacks c (s ++ t)
Lacks-append c [] t hs ht = ht
Lacks-append c (x ∷ s) t hs ht = (hs.0, Lacks-append c s t hs.1 ht)

pub cut_found : (c : ℕ) (s t : Text) → Lacks c s → cut c (s ++ (c ∷ t)) ≡ some (s, t)
unfolding cut
cut_found c [] t h = ground arith
cut_found c (x ∷ s) t h = ground (arith, cut_found c s t h.1)

cut_absent : (c : ℕ) (s : Text) → Lacks c s → cut c s ≡ none
unfolding cut
cut_absent c [] h = refl
cut_absent c (x ∷ s) h = ground (arith, cut_absent c s h.1)

pub head_of_split_absent : (c : ℕ) (s : Text) → Lacks c s → head_of_split c s ≡ s
unfolding head_of_split
head_of_split_absent c s h = ground (arith, cut_absent c s)

pub head_of_split_found : (c : ℕ) (s t : Text) → Lacks c s → head_of_split c (s ++ (c ∷ t)) ≡ s
unfolding head_of_split
head_of_split_found c s t h = ground (arith, cut_found c s t)

pub split_found : (c : ℕ) (s t : Text) → Lacks c s → split c (s ++ (c ∷ t)) ≡ s ∷ split c t
unfolding split
split_found c [] t h = ground arith
split_found c (x ∷ s) t h = ground (arith, split_found c s t h.1)

pub split_absent : (c : ℕ) (s : Text) → Lacks c s → split c s ≡ s ∷ []
unfolding split
split_absent c [] h = refl
split_absent c (x ∷ s) h = ground (arith, split_absent c s h.1)

contains_absent : (c : ℕ) (s : Text) → Lacks c s → contains s c ≡ false
unfolding contains
contains_absent c [] h = refl
contains_absent c (x ∷ s) h = ground (arith, contains_absent c s h.1)

pub contains_found : (c : ℕ) (s t : Text) → contains (s ++ (c ∷ t)) c ≡ true
unfolding contains
contains_found c [] t = ground arith
contains_found c (x ∷ s) t = ground (arith, contains_found c s t)

starts_with-append : (p t : Text) → starts_with (p ++ t) p ≡ true
unfolding starts_with
starts_with-append [] t = ground arith
starts_with-append (x ∷ p) t = ground (arith, starts_with-append p t)

contains_at_start : (s p : Text) → starts_with s p ≡ true → contains_text s p ≡ true
unfolding contains_text
contains_at_start [] p h = h
contains_at_start (x ∷ s) p h = ground arith

pub contains_text_found : (s p t : Text) → contains_text (s ++ (p ++ t)) p ≡ true
unfolding contains_text
contains_text_found [] p t = contains_at_start (p ++ t) p (starts_with-append p t)
contains_text_found (x ∷ s) p t = ground (arith, contains_text_found s p t)

abbrev pub AllLack : ℕ → List Text → Type 0
AllLack c [] = Unit
AllLack c (p ∷ ps) = Lacks c p × AllLack c ps

Lacks_of_add : (c x : ℕ) (ps : List Text) → AllLack c (add_to_head x ps) → (x ≢ c) × AllLack c ps
unfolding add_to_head
Lacks_of_add c x [] h = (h.0.0, tt)
Lacks_of_add c x (p ∷ ps) h = (h.0.0, (h.0.1, h.1))

pub Lacks-of_split : (c sep : ℕ) (s : Text) → c ≢ sep → AllLack c (split sep s) → Lacks c s
unfolding split
Lacks-of_split c sep [] h all = tt
Lacks-of_split c sep (x ∷ s) h all =
    grind (arith, Lacks-of_split c sep s h, Lacks_of_add c x (split sep s))

-- `[...].join(sep)`
unfoldable pub join : Text → List Text → Text
join sep [] = []
join sep (s ∷ []) = s
join sep (s ∷ t ∷ ss) = s ++ (sep ++ join sep (t ∷ ss))

-- the pieces of a `format!`
unfoldable pub concat : List Text → Text
concat [] = []
concat (s ∷ ss) = s ++ concat ss

-- `s.replace(c, by)`, at an ASCII byte
unfoldable pub replace : ℕ → Text → Text → Text
replace c by [] = []
replace c by (x ∷ s) = let rest = replace c by s in if x == c then by ++ rest else x ∷ rest
