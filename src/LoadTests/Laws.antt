-- ===== src/LoadTests/Laws.antt =====
-- load-tests/src/main.rs: the stream of operations on ConfigMaps never indexes its pool out of range,
-- bounds it, and leaves the cluster as it was.
use qubit.Base.{
  ℕ, ◌+◌, ◌%◌, ◌^◌, ◌≤◌, ◌<◌, zero, suc, Text, text_eq, nat_eq, codes, show_nat, ltb, leb, ◌==◌,
  ==_iff, length, get_elem?, contains, Bool, true, false, ◌||◌, some, List, [], ◌∷◌, ◌++◌, ◌≡◌, ◌≢◌,
  inl, inr, refl, ap, subst, ◌∙◌, arith, Bool-cases, List-cases,
}
use native.Mathlib.Nat.{mod-lt}
use qubit.LoadTests.Api.{ConfigMapApi, IsReliable}
use qubit.LoadTests.{
  Op, create, patch, delete, op_of, Stats, count, Stream, perform, round, rounds, clean_up,
  k8s_stream, trim_end, paths, http_requests,
}

-- The operation fits the pool.
data IsFitting (pool : List Text) : Op → Type 0 where
  fits_create : length pool < 50 → IsFitting pool create
  fits_patch : pool ≢ [] → IsFitting pool patch
  fits_delete : pool ≢ [] → IsFitting pool delete

op_of-IsFitting : (pool : List Text) (tick : ℕ) → IsFitting pool (op_of pool tick)
unfolding op_of
op_of-IsFitting [] tick = fits_create (omega arith)
op_of-IsFitting (n ∷ pool) tick = elim (Bool-cases (leb (tick % 10) 5)) [
  | inl low ↦ rw low (fits_patch λ e. cc)
  | inr high ↦ elim (Bool-cases (leb (tick % 10) 7)) [
    | inl middle ↦ elim (Bool-cases (ltb (length (n ∷ pool)) 50)) [
      | inl room ↦ rw (high, middle, room) (fits_create (ground arith))
      | inr full ↦ rw (high, middle, full) (fits_patch λ e. cc)
    ]
    | inr top ↦ rw (high, top) (fits_delete λ e. cc)
  ]
]

get_elem?-length :
    (pool : List Text) (i : ℕ) → i < length pool → (n : Text) × (get_elem? pool i ≡ some n)
get_elem?-length [] i h = absurd (omega arith)
get_elem?-length (n ∷ pool) zero h = (n, refl)
get_elem?-length (n ∷ pool) (suc i) h = get_elem?-length pool i (omega arith)

abbrev pub IsDistinct : List Text → Type 0
IsDistinct [] = Unit
IsDistinct (n ∷ pool) = (contains pool n ≡ false) × IsDistinct pool

contains-append_one :
    (pool : List Text) (n k : Text) → contains (pool ++ n ∷ []) k ≡ (contains pool k || n == k)
unfolding contains
contains-append_one [] n k = ground arith
contains-append_one (m ∷ pool) n k = ground (arith, contains-append_one pool n k)

append_one-IsDistinct :
    (pool : List Text) (n : Text)
    → IsDistinct pool
    → contains pool n ≡ false
    → IsDistinct (pool ++ n ∷ [])
unfolding contains
append_one-IsDistinct [] n d fresh = (refl, tt)
append_one-IsDistinct (m ∷ pool) n d fresh =
    ground (
      arith,
      append_one-IsDistinct pool n d.1,
      contains-append_one pool n m,
      ==_iff m n,
      ==_iff n m,
    )

length-append_one : (pool : List Text) (n : Text) → length (pool ++ n ∷ []) ≡ length pool + 1
length-append_one [] n = refl
length-append_one (m ∷ pool) n = omega (arith, length-append_one pool n)

module _ (api : ConfigMapApi) (reliable : IsReliable api) (before : api.Contents) where
  -- The pool lists the ConfigMaps that were not there before, each once, and no others are new.
  pub record IsKept (c : api.Contents) (pool : List Text) : Type 0 where
    pub exact : (k : Text) → api.has c k ≡ (contains pool k || api.has before k)
    pub fresh : (k : Text) → contains pool k ≡ true → api.has before k ≡ false
    pub distinct : IsDistinct pool
    pub bounded : length pool ≤ 50

  created-IsKept :
      (c : api.Contents) (pool : List Text) (n : Text)
      → length pool < 50
      → (api.create c n).1 ≡ true
      → IsKept c pool
      → IsKept (api.create c n).0 (pool ++ n ∷ [])
  created-IsKept c pool n room made h =
      let absent = reliable.not_taken c n made in
      record {
        exact = λ k.
            ground (arith, reliable.created c n k made, contains-append_one pool n k, h.exact k);
        fresh = λ k m.
            ground (arith, contains-append_one pool n k, h.fresh k, h.exact n, absent, ==_iff n k);
        distinct = append_one-IsDistinct pool n h.distinct (ground (arith, h.exact n, absent));
        bounded = omega (arith, length-append_one pool n);
      }

  same-IsKept :
      (c c' : api.Contents) (pool : List Text)
      → ((k : Text) → api.has c' k ≡ api.has c k)
      → IsKept c pool
      → IsKept c' pool
  same-IsKept c c' pool same h = record {
    exact = λ k. same k ∙ h.exact k;
    fresh = h.fresh;
    distinct = h.distinct;
    bounded = h.bounded;
  }

  deleted-IsKept :
      (c : api.Contents) (n : Text) (pool : List Text)
      → IsKept c (n ∷ pool)
      → IsKept (api.delete c n).0 pool
  unfolding contains
  deleted-IsKept c n pool h =
      let there : api.has c n ≡ true = ground (arith, h.exact n) in
      record {
        exact = λ k. ground (
          arith,
          reliable.deleted c n k there,
          h.exact k,
          h.fresh n,
          h.distinct.0,
          ==_iff n k,
          ==_iff k n,
        );
        fresh = λ k m. h.fresh k (ground arith);
        distinct = h.distinct.1;
        bounded = omega (arith, h.bounded);
      }

  perform-IsKept :
      (s : Stream api) (op : Op)
      → IsFitting s.pool op
      → IsKept s.cluster s.pool
      → (r : api.Contents × List Text × Bool) × (perform api op s ≡ some r) × IsKept r.0 r.1
  unfolding perform
  perform-IsKept s create (fits_create room) h =
      let n = codes "load-gen-" ++ show_nat s.tick in
      elim (Bool-cases (api.create s.cluster n).1) [
        | inl made ↦ (
          (_, s.pool ++ n ∷ [], true),
          rw made refl,
          created-IsKept s.cluster s.pool n room made h,
        )
        | inr refused ↦ (
          (_, s.pool, false),
          rw refused refl,
          same-IsKept s.cluster _ s.pool (λ k. reliable.not_created s.cluster n k refused) h,
        )
      ]
  perform-IsKept s patch (fits_patch some_name) h = elim (List-cases s.pool) [
    | inl none_there ↦ absurd (some_name none_there)
    | inr (x, rest, e) ↦
        let (n, named) =
          get_elem?-length s.pool (s.tick % length s.pool)
            (mod-lt s.tick (omega (arith, ap length e))) in
        (
          ((api.patch s.cluster n).0, s.pool, (api.patch s.cluster n).1),
          rw (named, perform) refl,
          same-IsKept s.cluster _ s.pool (λ k. reliable.patched s.cluster n k) h,
        )
  ]
  perform-IsKept s delete (fits_delete some_name) h = elim (List-cases s.pool) [
    | inl none_there ↦ absurd (some_name none_there)
    | inr (n, rest, e) ↦ (
      ((api.delete s.cluster n).0, rest, (api.delete s.cluster n).1),
      rw (e, perform) refl,
      deleted-IsKept s.cluster n rest (subst (IsKept s.cluster) e h),
    )
  ]

  round-IsKept :
      (s : Stream api)
      → IsKept s.cluster s.pool
      → (t : Stream api) × (round api s ≡ some t) × IsKept t.cluster t.pool
  unfolding round
  round-IsKept s h =
      let ((c, pool, ok), done_so, kept) =
        perform-IsKept s (op_of s.pool s.tick) (op_of-IsFitting s.pool s.tick) h in
      (
        record { cluster = c; pool = pool; tick = (s.tick + 1) % 2 ^ 64; stats = count s.stats ok },
        rw (done_so, round) refl,
        kept,
      )

  -- No round panics, and the pool stays within its bound.
  rounds-IsKept :
      (n : ℕ) (s : Stream api)
      → IsKept s.cluster s.pool
      → (t : Stream api) × (rounds api n s ≡ some t) × IsKept t.cluster t.pool
  unfolding rounds
  rounds-IsKept zero s h = (s, refl, h)
  rounds-IsKept (suc n) s h =
      let (t, step, kept) = round-IsKept s h in
      let (u, rest, end) = rounds-IsKept n t kept in (u, rw (step, rounds) rest, end)

  clean_up-has :
      (c : api.Contents) (pool : List Text)
      → IsKept c pool
      → (k : Text) → api.has (clean_up api c pool) k ≡ api.has before k
  unfolding clean_up contains
  clean_up-has c [] h k = h.exact k
  clean_up-has c (n ∷ pool) h k = clean_up-has (api.delete c n).0 pool (deleted-IsKept c n pool h) k

-- If the API of Kubernetes is reliable (a creation that succeeds adds exactly a name that was
-- free, one that fails adds none, and a deletion of a ConfigMap that is there removes exactly
-- it), then the load generator's stream of operations never indexes its pool out of range, in any
-- number of rounds, and after its clean-up the cluster has exactly the ConfigMaps that it had
-- before.
pub k8s_stream-restores :
    (api : ConfigMapApi) (n : ℕ) (c : api.Contents)
    → IsReliable api
    → (r : api.Contents × Stats) × (k8s_stream api n c ≡ some r)
      × ((k : Text) → api.has r.0 k ≡ api.has c k)
unfolding k8s_stream contains
k8s_stream-restores api n c reliable =
    let first : Stream api = record {
      cluster = c;
      pool = [];
      tick = 0;
      stats = record { sent = 0; errors = 0 };
    } in
    let none_made : IsKept api reliable c c [] = record {
      exact = λ k. refl;
      fresh = λ k m. cc;
      distinct = tt;
      bounded = omega arith;
    } in
    let (s, ran, kept) = rounds-IsKept api reliable c n first none_made in
    (
      (clean_up api s.cluster s.pool, s.stats),
      rw (ran, k8s_stream) refl,
      clean_up-has api reliable c s.cluster s.pool kept,
    )

-- The requests never leave the list of paths.
http_requests-total :
    (target : Text) (n tick : ℕ)
    → (urls : List Text) × (http_requests target n tick ≡ some urls) × (length urls ≡ n)
unfolding http_requests
http_requests-total target zero tick = ([], refl, refl)
http_requests-total target (suc n) tick =
    let (path, found) =
      get_elem?-length paths (tick % length paths) (mod-lt tick (unfold paths in omega arith)) in
    let (urls, later, size) = http_requests-total target n ((tick + 1) % 2 ^ 64) in
    (
      (trim_end 47 target ++ path) ∷ urls,
      rw (found, later, http_requests) refl,
      omega (arith, size),
    )
