-- ===== src/LoadTests.antt =====
-- The load generator (load-tests/src/main.rs): a stream of operations on ConfigMaps, which keeps a pool
-- of the ones that it has made, and a stream of requests. The API of Kubernetes and the client of HTTP
-- are parameters, and so is the number of rounds until the deadline.
pub mod Api
pub mod Laws
pub mod Tests
use qubit.Base.{
  ℕ, ◌+◌, ◌%◌, ◌^◌, zero, suc, Text, nat_eq, codes, show_nat, ltb, leb, ◌==◌, ◌&&◌, is_empty,
  length, get_elem?, if◌then◌else◌, Bool, Option, none, some, List, [], ◌∷◌, ◌++◌, ◌>>=◌,
}
use qubit.LoadTests.Api.{ConfigMapApi}

pub data Op : Type 0 where
  create : Op
  patch : Op
  delete : Op

-- What is done in a round, by the pool and the round's number.
unfoldable pub op_of : List Text → ℕ → Op
op_of pool tick =
    let r = tick % 10 in
    if is_empty pool
    then create
    else if leb r 5
    then patch
    else if leb r 7
    then (if ltb (length pool) 50 then create else patch)
    else delete

pub record Stats : Type 0 where
  pub sent : ℕ
  pub errors : ℕ

-- `fetch_add` wraps.
unfoldable pub count : Stats → Bool → Stats
count stats succeeded =
    if succeeded
    then record stats { sent = (stats.sent + 1) % 2 ^ 64 }
    else record stats { errors = (stats.errors + 1) % 2 ^ 64 }

module _ (api : ConfigMapApi) where
  pub record Stream : Type 0 where
    pub cluster : api.Contents
    pub pool : List Text
    pub tick : ℕ
    pub stats : Stats

  -- An operation: the cluster and the pool after it and whether it succeeded; none is a panic.
  unfoldable pub perform : Op → Stream → Option (api.Contents × List Text × Bool)
  perform patch s = do
    name ← get_elem? s.pool (s.tick % length s.pool)
    let (cluster, ok) = api.patch s.cluster name
    some (cluster, s.pool, ok)
  perform create s =
      let name = codes "load-gen-" ++ show_nat s.tick in
      let (cluster, ok) = api.create s.cluster name in
      some (cluster, if ok then s.pool ++ name ∷ [] else s.pool, ok)
  perform delete s = elim s.pool [
    | [] ↦ none
    | name ∷ rest ↦ let (cluster, ok) = api.delete s.cluster name in some (cluster, rest, ok)
  ]

  unfoldable pub round : Stream → Option Stream
  round s = do
    (cluster, pool, ok) ← perform (op_of s.pool s.tick) s
    some (record {
      cluster = cluster;
      pool = pool;
      tick = (s.tick + 1) % 2 ^ 64;
      stats = count s.stats ok;
    })

  unfoldable pub rounds : ℕ → Stream → Option Stream
  rounds zero s = some s
  rounds (suc n) s = do t ← round s; rounds n t

  -- the deletions at the end, whose answers are ignored
  unfoldable pub clean_up : api.Contents → List Text → api.Contents
  clean_up c [] = c
  clean_up c (name ∷ pool) = clean_up (api.delete c name).0 pool

  unfoldable pub k8s_stream : ℕ → api.Contents → Option (api.Contents × Stats)
  k8s_stream n c = do
    s ←
        rounds n
          (record { cluster = c; pool = []; tick = 0; stats = record { sent = 0; errors = 0 } })
    some (clean_up s.cluster s.pool, s.stats)

-- `trim_end_matches`
unfoldable pub trim_end : ℕ → Text → Text
trim_end c [] = []
trim_end c (x ∷ s) = let rest = trim_end c s in if is_empty rest && x == c then [] else x ∷ rest

unfoldable pub paths : List Text
paths =
    codes "/"
    ∷ codes "/api/v1/users"
    ∷ codes "/api/v1/orders"
    ∷ codes "/api/v1/status"
    ∷ codes "/metrics"
    ∷ []

-- The requests of the rounds from a number on; none is a panic.
unfoldable pub http_requests : Text → ℕ → ℕ → Option (List Text)
http_requests target zero tick = some []
http_requests target (suc n) tick = do
  path ← get_elem? paths (tick % length paths)
  later ← http_requests target n ((tick + 1) % 2 ^ 64)
  some ((trim_end 47 target ++ path) ∷ later)
