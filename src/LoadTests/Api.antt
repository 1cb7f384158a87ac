-- ===== src/LoadTests/Api.antt =====
-- What load-tests/src/main.rs uses of the API of Kubernetes: ConfigMaps of one namespace by their names.
-- Another client of the cluster touches none of the names, and an answer is lost only with its effect.
use qubit.Base.{Text, text_eq, ◌==◌, if◌then◌else◌, Bool, true, false, ◌≡◌}

pub record ConfigMapApi : Type 1 where
  pub Contents : Type 0
  pub has : Contents → Text → Bool
  pub create : Contents → Text → Contents × Bool
  pub patch : Contents → Text → Contents × Bool
  pub delete : Contents → Text → Contents × Bool

-- A creation under a name that is taken fails, and a deletion of a ConfigMap that is there succeeds.
pub record IsReliable (api : ConfigMapApi) : Type 0 where
  pub created :
      (c : api.Contents) (n k : Text)
      → (api.create c n).1 ≡ true
      → api.has (api.create c n).0 k ≡ (if n == k then true else api.has c k)
  pub not_taken : (c : api.Contents) (n : Text) → (api.create c n).1 ≡ true → api.has c n ≡ false
  pub not_created :
      (c : api.Contents) (n k : Text)
      → (api.create c n).1 ≡ false
      → api.has (api.create c n).0 k ≡ api.has c k
  pub patched : (c : api.Contents) (n k : Text) → api.has (api.patch c n).0 k ≡ api.has c k
  pub deleted :
      (c : api.Contents) (n k : Text)
      → api.has c n ≡ true
      → api.has (api.delete c n).0 k ≡ (if n == k then false else api.has c k)
