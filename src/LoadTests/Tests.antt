-- ===== src/LoadTests/Tests.antt =====
-- Tests of load-tests/src/main.rs, against a cluster that is a list of names.
use qubit.Base.{
  Text, text_eq, codes, ◌==◌, ==_iff, contains, if◌then◌else◌, true, false, some, List, [], ◌∷◌,
  ◌≡◌, refl, arith,
}
use qubit.LoadTests.Api.{ConfigMapApi, IsReliable}
use qubit.LoadTests.{Stats, k8s_stream}
use qubit.LoadTests.Laws.{k8s_stream-restores}

unfoldable remove_name : List Text → Text → List Text
remove_name [] n = []
remove_name (m ∷ c) n = let rest = remove_name c n in if n == m then rest else m ∷ rest

contains-remove_name :
    (c : List Text) (n k : Text)
    → contains (remove_name c n) k ≡ (if n == k then false else contains c k)
unfolding remove_name contains
contains-remove_name [] n k = ground arith
contains-remove_name (m ∷ c) n k =
    ground (arith, contains-remove_name c n k, ==_iff n m, ==_iff k m, ==_iff n k)

abbrev list_api : ConfigMapApi
list_api = record {
  Contents = List Text;
  has = contains;
  create = λ c n. if contains c n then (c, false) else (n ∷ c, true);
  patch = λ c n. (c, contains c n);
  delete = λ c n. (remove_name c n, contains c n);
}

list_api-IsReliable : IsReliable list_api
unfolding contains
list_api-IsReliable = record {
  created = λ c n k made. ground (arith, ==_iff n k, ==_iff k n);
  not_taken = λ c n made. ground arith;
  not_created = λ c n k refused. ground arith;
  patched = λ c n k. refl;
  deleted = λ c n k there. contains-remove_name c n k;
}

-- A ConfigMap of somebody else, under the first name that the stream tries.
abbrev theirs : List Text
theirs = codes "load-gen-0" ∷ []

k8s_stream-restores_example :
    (r : List Text × Stats) × (k8s_stream list_api 30 theirs ≡ some r)
    × ((k : Text) → contains r.0 k ≡ contains theirs k)
k8s_stream-restores_example = k8s_stream-restores list_api 30 theirs list_api-IsReliable
