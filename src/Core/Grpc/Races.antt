-- ===== src/Core/Grpc/Races.antt =====
-- core/src/aggregator/ebpf_aggregator.rs: what the interleavings of the threads keep.
use qubit.Base.{
  ℕ, ◌+◌, ◌≤◌, Text, text_eq, contains, contains-set_insert, set_insert, ◌==◌, ==_iff,
  if◌then◌else◌, List, [], ◌∷◌, ◌++◌, ◌≡◌, refl, sym, ap, subst, arith,
}
use qubit.Core.Cache.{CacheLib}
use qubit.Core.State.{State}
use qubit.Core.Ebpf.{edge_key, record_flow}
use qubit.Core.Ebpf.Phases.{
  Progress, started, sourced, unrouted, named, resolved, claimed, finished, advance,
}
use qubit.Core.K8s.{with_topology}
use qubit.Core.Grpc.{add_route}
use qubit.Core.Grpc.Calls.{
  Action, put_pod, drop_pod, heal, put_service, drop_service, queue_row, attach, put_route, act,
}
use qubit.Core.Grpc.Threads.{
  Threads, Move, arrive, proceed, call, access, reply_sent, panic_topology, panic_seen, Moves, stay,
  more,
}

-- The number of threads that have claimed a key and not stored its edge yet.
abbrev pub claims : Text → List Progress → ℕ
claims k [] = 0
claims k (claimed input src dst ∷ ps) = (if edge_key src dst == k then 1 else 0) + claims k ps
claims k (p ∷ ps) = claims k ps

abbrev one_claim : Text → Progress → ℕ
one_claim k p = claims k (p ∷ [])

claims-cons :
    (k : Text) (p : Progress) (ps : List Progress) → claims k (p ∷ ps) ≡ one_claim k p + claims k ps
claims-cons k (claimed input src dst) ps = omega arith
claims-cons k (started input) ps = omega arith
claims-cons k (sourced input src) ps = omega arith
claims-cons k (unrouted input src) ps = omega arith
claims-cons k (named input src name) ps = omega arith
claims-cons k (resolved input src dst) ps = omega arith
claims-cons k (finished r) ps = omega arith

claims-append : (k : Text) (ps qs : List Progress) → claims k (ps ++ qs) ≡ claims k ps + claims k qs
claims-append k [] qs = omega arith
claims-append k (p ∷ ps) qs =
    omega (arith, claims-cons k p (ps ++ qs), claims-cons k p ps, claims-append k ps qs)

module _ (lib : CacheLib) where
  -- The claims of a key, and whether the key has been seen.
  abbrev pub IsClaimedOnce : Threads lib → Type 0
  IsClaimedOnce s =
      (k : Text) → claims k s.running ≤ (if contains s.core.seen_edges k then 1 else 0)

  abbrev seen : State lib → Text → ℕ
  seen s k = if contains s.seen_edges k then 1 else 0

  -- A thread's step adds no more claims of a key than it marks as seen.
  advance-claims :
      (s : State lib) (p : Progress) (k : Text)
      → one_claim k (advance lib s p).1 + seen s k ≤ one_claim k p + seen (advance lib s p).0 k
  unfolding advance record_flow set_insert
  advance-claims s (started input) k = ground arith
  advance-claims s (sourced input src) k = ground arith
  advance-claims s (unrouted input src) k = ground arith
  advance-claims s (named input src name) k = omega arith
  advance-claims s (resolved input src dst) k = ground (
    arith,
    contains-set_insert s.seen_edges (edge_key src dst) k,
    ==_iff (edge_key src dst) k,
    ==_iff k (edge_key src dst),
  )
  advance-claims s (claimed input src dst) k = ground arith
  advance-claims s (finished r) k = omega arith

  act-seen : (s : State lib) (a : Action) → (act lib s a).seen_edges ≡ s.seen_edges
  unfolding act with_topology add_route
  act-seen s (put_pod ip info) = refl
  act-seen s (drop_pod ip) = refl
  act-seen s (heal ip app ns) = ground arith
  act-seen s (put_service key info) = refl
  act-seen s (drop_service key) = refl
  act-seen s (queue_row row) = refl
  act-seen s (attach node event) = ground arith
  act-seen s (put_route entry) = refl

  Move-IsClaimedOnce : {s u : Threads lib} → Move lib s u → IsClaimedOnce s → IsClaimedOnce u
  Move-IsClaimedOnce (arrive s input) h k =
      omega (arith, claims-append k s.running (started input ∷ []), h k)
  Move-IsClaimedOnce (proceed s before after p e) h k =
      let p' = (advance lib s.core p).1 in
      omega (
        arith,
        h k,
        ap (claims k) e,
        claims-append k before (p ∷ after),
        claims-cons k p after,
        claims-append k before (p' ∷ after),
        claims-cons k p' after,
        advance-claims s.core p k,
      )
  Move-IsClaimedOnce (call s to_json c) h k = h k
  Move-IsClaimedOnce (access s before after a rest e) h k =
      subst (λ keys. claims k s.running ≤ (if contains keys k then 1 else 0))
        (sym (act-seen s.core a)) (h k)
  Move-IsClaimedOnce (reply_sent s before after e) h k = h k
  Move-IsClaimedOnce (panic_topology s) h k = h k
  Move-IsClaimedOnce (panic_seen s) h k = h k

  -- If at first at most one thread is between the claim of each edge key and the store of its
  -- flow, and only of a key that is marked as seen, then this is so after every interleaving of
  -- the threads that record events and of the calls of the other handlers, at every access to a
  -- cache and every lock, with panics that poison a lock: no two threads store a flow for the same
  -- key at once.
  pub Moves-IsClaimedOnce : {s u : Threads lib} → IsClaimedOnce s → Moves lib s u → IsClaimedOnce u
  Moves-IsClaimedOnce h stay = h
  Moves-IsClaimedOnce h (more r mv) = Move-IsClaimedOnce mv (Moves-IsClaimedOnce h r)
