-- ===== src/Agent/Events/Laws.antt =====
-- cluster-agent/src/kubernetes/event_handler.rs: what a reader of JSON finds in the text.
use mathlib.Core.Option
use mathlib.Core.List.{append_assoc}
use qubit.Base.{
  ℕ, replace, Text, nat_eq, ltb, leb, ◌==◌, ◌&&◌, ◌||◌, if◌then◌else◌, Bool, true, false,
  Bool-cases, inl, inr, Option, none, some, [], ◌∷◌, ◌++◌, ◌≡◌, ◌∙◌, refl, ap, arith,
}
use qubit.Agent.Events.{escape_json}

-- The escapes of JSON with one letter.
abbrev pub escape_of : ℕ → Option ℕ
escape_of c =
    if c == 34 || c == 92 || c == 47
    then some c
    else if c == 98
    then some 8
    else if c == 102
    then some 12
    else if c == 110
    then some 10
    else if c == 114
    then some 13
    else if c == 116
    then some 9
    else none

-- The text up to the closing quote and what follows it. A control character must not stand there.
unfoldable pub read_string : Bool → Text → Option (Text × Text)
read_string escaped [] = none
read_string true (c ∷ s) =
    let rest = read_string false s in
    elim (escape_of c) [
      | none ↦ none
      | some x ↦ Option.map (λ (p : Text × Text). (x ∷ p.0, p.1)) rest
    ]
read_string false (c ∷ s) =
    let rest = read_string false s in
    let after = read_string true s in
    if c == 34
    then some ([], s)
    else if c == 92
    then after
    else if ltb c 32
    then none
    else Option.map (λ (p : Text × Text). (c ∷ p.0, p.1)) rest

-- No control character but the two that are escaped.
abbrev pub readable : Text → Bool
readable [] = true
readable (c ∷ s) = (leb 32 c || c == 10 || c == 13) && readable s

escape_char : ℕ → Text
escape_char c =
    if c == 92
    then 92 ∷ 92 ∷ []
    else if c == 34
    then 92 ∷ 34 ∷ []
    else if c == 10
    then 92 ∷ 110 ∷ []
    else if c == 13
    then 92 ∷ 114 ∷ []
    else c ∷ []

escape_json-cons : (c : ℕ) (s : Text) → escape_json (c ∷ s) ≡ escape_char c ++ escape_json s
unfolding escape_json replace escape_char native.Mathlib.Decide.ℕ_discrete
escape_json-cons c s = ground arith

abbrev with_char : ℕ → Option (Text × Text) → Option (Text × Text)
with_char c = Option.map (λ (p : Text × Text). (c ∷ p.0, p.1))

read_string-escape_char :
    (c : ℕ) (t : Text)
    → read_string false (escape_char c ++ t)
      ≡ (if leb 32 c || c == 10 || c == 13 then with_char c (read_string false t) else none)
unfolding read_string escape_char native.Mathlib.Decide.ℕ_discrete
read_string-escape_char c t = ground arith

-- A reader of a JSON string, put at an escaped text and a quote, reads the text and stops at the
-- quote if the text has no control character but line feeds and carriage returns, and refuses it
-- otherwise.
pub read_string-escape_json :
    (s rest : Text)
    → read_string false (escape_json s ++ 34 ∷ rest) ≡ (if readable s then some (s, rest) else none)
unfolding read_string escape_json replace native.Mathlib.Decide.ℕ_discrete
read_string-escape_json [] rest = refl
read_string-escape_json (c ∷ s) rest =
    ap (λ t. read_string false (t ++ 34 ∷ rest)) (escape_json-cons c s)
    ∙ ap (read_string false) (append_assoc (escape_char c) (escape_json s) (34 ∷ rest))
    ∙ read_string-escape_char c (escape_json s ++ 34 ∷ rest)
    ∙ elim (Bool-cases (readable s)) [
      | inl good ↦ ground (arith, read_string-escape_json s rest)
      | inr bad ↦ ground (arith, read_string-escape_json s rest)
    ]
