-- ===== src/Base/Decimal.antt =====
-- A number in decimal, as `format!` writes it.
use Prim.Native.Nat.{ℕ, zero, suc, ◌+◌, ◌-◌, ◌*◌, ◌/◌, ◌%◌, ◌<◌}
use mathlib.Core.Path.{◌≡◌, refl, sym, ap, ◌∙◌}
use native.Mathlib.Omega.{arith}
use qubit.Base.Bytes.{Text}
use qubit.Base.Split.{Lacks, Lacks-append}
use qubit.Base.Equality.{ltb, if◌then◌else◌}
use mathlib.Core.List.{[], ◌∷◌, ◌++◌}

-- the fuel is the number of digits at most
unfoldable pub digits : ℕ → ℕ → Text
digits zero n = []
digits (suc fuel) n =
    let more = digits fuel (n / 10) ++ (48 + n % 10) ∷ [] in
    if ltb n 10 then (48 + n) ∷ [] else more

unfoldable pub show_nat : ℕ → Text
unfolding digits
show_nat n = digits (suc n) n

-- The number that a text of digits stands for, after the digits that are read already.
read_digits : ℕ → Text → ℕ
read_digits acc [] = acc
read_digits acc (c ∷ s) = read_digits (acc * 10 + (c - 48)) s

read_digits-append :
    (acc : ℕ) (s t : Text) → read_digits acc (s ++ t) ≡ read_digits (read_digits acc s) t
unfolding read_digits
read_digits-append acc [] t = refl
read_digits-append acc (c ∷ s) t = read_digits-append (acc * 10 + (c - 48)) s t

read_digits-digits : (fuel n : ℕ) → n < fuel → read_digits 0 (digits fuel n) ≡ n
unfolding digits read_digits
read_digits-digits zero n h = absurd (omega arith)
read_digits-digits (suc fuel) n h = ground (
  arith,
  read_digits-append 0 (digits fuel (n / 10)) ((48 + n % 10) ∷ []),
  read_digits-digits fuel (n / 10),
)

-- Two numbers with the same text are the same number.
pub show_nat_injective : (m n : ℕ) → show_nat m ≡ show_nat n → m ≡ n
unfolding show_nat
show_nat_injective m n e =
    sym (read_digits-digits (suc m) m (omega arith))
    ∙ (ap (read_digits 0) e ∙ read_digits-digits (suc n) n (omega arith))

digits-Lacks : (c fuel n : ℕ) → c < 48 → Lacks c (digits fuel n)
unfolding digits
digits-Lacks c zero n h = tt
digits-Lacks c (suc fuel) n h = ground (
  arith,
  digits-Lacks c fuel (n / 10),
  Lacks-append c (digits fuel (n / 10)) ((48 + n % 10) ∷ []),
)

-- A number's text has digits only.
pub show_nat-Lacks : (c n : ℕ) → c < 48 → Lacks c (show_nat n)
unfolding show_nat
show_nat-Lacks c n h = digits-Lacks c (suc n) n h
