-- ===== src/Core/Cache.antt =====
-- The concurrent cache of the `moka` crate, which core uses with no bound and no expiry
-- (`Cache::builder().build()`): an entry stays until it is replaced or removed.
use qubit.Base.{Text, text_eq, ◌==◌, if◌then◌else◌, Option, none, some, ◌≡◌, []}
use qubit.Base.Map

pub record CacheLib : Type 1 where
  pub Cache : Type 0 → Type 0
  pub empty : (V : Type 0) → Cache V
  pub get : (V : Type 0) → Cache V → Text → Option V
  pub insert : (V : Type 0) → Cache V → Text → V → Cache V
  pub remove : (V : Type 0) → Cache V → Text → Cache V
  pub get-empty : (V : Type 0) (k : Text) → get V (empty V) k ≡ none
  pub get-insert :
      (V : Type 0) (c : Cache V) (k : Text) (v : V) (j : Text)
      → get V (insert V c k v) j ≡ (if k == j then some v else get V c j)
  pub get-remove :
      (V : Type 0) (c : Cache V) (k j : Text)
      → get V (remove V c k) j ≡ (if k == j then none else get V c j)

-- An association list meets the description.
abbrev pub map_cache : CacheLib
map_cache = record {
  Cache = λ V. Map.Map Text V;
  empty = λ V. [];
  get = λ V. Map.get;
  insert = λ V. Map.insert;
  remove = λ V. Map.remove;
  get-empty = λ V k. Map.get-empty {V = V} k;
  get-insert = λ V c k v j. Map.get-insert c k v j;
  get-remove = λ V c k j. Map.get-remove c k j;
}
