-- ===== src/Base/Map.antt =====
-- A `HashMap` as an association list. Lookups are exact; the order of the entries stands for the
-- unspecified order in which the program iterates.
use qubit.Base.Equality.{Eq, ◌==◌, if◌then◌else◌}
use Prim.Native.Nat.{ℕ, ◌+◌}
use mathlib.Core.Path.{◌≡◌, refl}
use mathlib.Core.Bool.{Bool, true, false}
use mathlib.Core.Option
use mathlib.Core.Option.{Option, none, some}
use mathlib.Core.List.{List, [], ◌∷◌}
use native.Mathlib.Omega.{arith}

abbrev pub Map {ℓ κ} : Type ℓ → Type κ → Type (ℓ ⊔ κ)
Map K V = List (K × V)

abbrev pub measured {ℓ} : {V : Type ℓ} → (V → ℕ) → Option V → ℕ
measured f none = 0
measured f (some v) = f v

module _ {ℓ κ} {K : Type ℓ} {V : Type κ} ⦃e : Eq K⦄ where
  unfoldable pub get : Map K V → K → Option V
  get [] k = none
  get ((j, v) ∷ m) k = if j == k then some v else get m k

  unfoldable pub insert : Map K V → K → V → Map K V
  insert [] k v = (k, v) ∷ []
  insert ((j, w) ∷ m) k v = if j == k then (k, v) ∷ m else (j, w) ∷ insert m k v

  unfoldable pub remove : Map K V → K → Map K V
  remove [] k = []
  remove ((j, w) ∷ m) k = let rest = remove m k in if j == k then rest else (j, w) ∷ rest

  unfoldable pub contains_key : Map K V → K → Bool
  contains_key m k = elim (get m k) [ none ↦ false | some v ↦ true ]

  -- The keys of a hash map are distinct.
  abbrev pub IsUnique : Map K V → Type (ℓ ⊔ κ)
  IsUnique [] = Unit
  IsUnique ((k, v) ∷ m) = (get m k ≡ none) × IsUnique m

-- The sum of a measure over the values.
unfoldable pub total {ℓ κ} : {K : Type ℓ} {V : Type κ} → (V → ℕ) → Map K V → ℕ
total f [] = 0
total f ((k, v) ∷ m) = f v + total f m

module _ {ℓ κ} {K : Type ℓ} {V : Type κ} ⦃e : Eq K⦄ where
  pub get-empty : (k : K) → get {V = V} [] k ≡ none
  unfolding get
  get-empty k = refl

  pub get-insert :
      (m : Map K V) (k : K) (v : V) (j : K)
      → get (insert m k v) j ≡ (if k == j then some v else get m j)
  unfolding get insert
  get-insert [] k v j = refl
  get-insert ((i, w) ∷ m) k v j = ground (arith, get-insert m k v j)

  pub get-remove : (m : Map K V) (k j : K) → get (remove m k) j ≡ (if k == j then none else get m j)
  unfolding get remove
  get-remove [] k j = ground arith
  get-remove ((i, w) ∷ m) k j = ground (arith, get-remove m k j)

  pub insert-IsUnique : (m : Map K V) (k : K) (v : V) → IsUnique m → IsUnique (insert m k v)
  unfolding get insert
  insert-IsUnique [] k v u = (refl, tt)
  insert-IsUnique ((i, w) ∷ m) k v u = ground (arith, insert-IsUnique m k v u.1, get-insert m k v i)

  pub remove-IsUnique : (m : Map K V) (k : K) → IsUnique m → IsUnique (remove m k)
  unfolding get remove
  remove-IsUnique [] k u = tt
  remove-IsUnique ((i, w) ∷ m) k u = ground (arith, remove-IsUnique m k u.1, get-remove m k i)

  pub total-insert :
      (f : V → ℕ) (m : Map K V) (k : K) (v : V)
      → total f (insert m k v) + measured f (get m k) ≡ total f m + f v
  unfolding get insert total
  total-insert f [] k v = omega arith
  total-insert f ((i, w) ∷ m) k v = ground (arith, total-insert f m k v)

  remove_absent : (m : Map K V) (k : K) → get m k ≡ none → remove m k ≡ m
  unfolding get remove
  remove_absent [] k h = refl
  remove_absent ((i, w) ∷ m) k h = ground (arith, remove_absent m k)

  pub total-remove :
      (f : V → ℕ) (m : Map K V) (k : K)
      → IsUnique m
      → total f (remove m k) + measured f (get m k) ≡ total f m
  unfolding get remove total
  total-remove f [] k u = omega arith
  total-remove f ((i, w) ∷ m) k u = ground (arith, total-remove f m k u.1, remove_absent m k)

-- `values_mut`: every value is changed in place.
unfoldable pub map_values {ℓ κ} : {K : Type ℓ} {V W : Type κ} → (V → W) → Map K V → Map K W
map_values f [] = []
map_values f ((k, v) ∷ m) = (k, f v) ∷ map_values f m

module _ {ℓ κ} {K : Type ℓ} {V W : Type κ} ⦃e : Eq K⦄ (f : V → W) where
  pub get-map_values : (m : Map K V) (k : K) → get (map_values f m) k ≡ Option.map f (get m k)
  unfolding get map_values
  get-map_values [] k = refl
  get-map_values ((i, w) ∷ m) k = ground (arith, get-map_values m k)

  pub map_values-IsUnique : (m : Map K V) → IsUnique m → IsUnique (map_values f m)
  unfolding map_values
  map_values-IsUnique [] u = tt
  map_values-IsUnique ((i, w) ∷ m) u = ground (arith, map_values-IsUnique m u.1, get-map_values m i)

  pub total-map_values :
      (g : W → ℕ) (m : Map K V) → total g (map_values f m) ≡ total (λ v. g (f v)) m
  unfolding map_values total
  total-map_values g [] = refl
  total-map_values g ((i, w) ∷ m) = omega (arith, total-map_values g m)
