-- ===== src/Core/Grpc/Alone.antt =====
-- core/src/server/grpc.rs and core/src/aggregator: one thread or one call of core goes on while the others
-- wait.
use mathlib.Core.List.{append-nil}
use qubit.Base.{ℕ, zero, suc, Text, List, [], ◌∷◌, ◌++◌, ◌≡◌, refl, subst}
use qubit.Base.Map.{Map}
use qubit.Core.Cache.{CacheLib}
use qubit.Core.Ebpf.Phases.{Progress, advance, run_alone}
use qubit.Core.Grpc.{PodEventRequest, try_event_type}
use qubit.Core.Grpc.Calls.{Action, pod_call, pod_applied_actions, actions_of, act, run_actions}
use qubit.Core.Grpc.Threads.{Threads, proceed, call, access, reply_sent, Moves, more}

module _ (lib : CacheLib) where
  -- A thread does some steps.
  pub thread_goes_on :
      (n : ℕ) {r : Threads lib} (s : Threads lib) (before after : List Progress) (p : Progress)
      → s.running ≡ before ++ p ∷ after
      → Moves lib r s
      → Moves lib r (record s {
        core = (run_alone lib n (s.core, p)).0;
        running = before ++ (run_alone lib n (s.core, p)).1 ∷ after;
      })
  unfolding run_alone
  thread_goes_on zero {r} s before after p e run =
      subst (λ running. Moves lib r (record s { running = running })) e run
  thread_goes_on (suc n) s before after p e run =
      thread_goes_on n
        (record s {
          core = (advance lib s.core p).0;
          running = before ++ (advance lib s.core p).1 ∷ after;
        })
        before after (advance lib s.core p).1 refl (more run (proceed s before after p e))

  call_goes_on :
      {r : Threads lib} (s : Threads lib) (before : List (List Action)) (actions : List Action)
      → s.calls ≡ before ++ actions ∷ []
      → Moves lib r s
      → Moves lib r (record s { core = run_actions lib s.core actions; calls = before ++ [] })
  call_goes_on s before [] e run = more run (reply_sent s before [] e)
  call_goes_on s before (a ∷ rest) e run =
      call_goes_on (record s { core = act lib s.core a; calls = before ++ rest ∷ [] }) before rest
        refl (more run (access s before [] a rest e))

  abbrev applied_request : Text → Text → Text → Text → Text → PodEventRequest
  applied_request ip ns app svc type = record {
    pod_ip = ip;
    namespace = ns;
    event_type = 0;
    application_name = app;
    service_name = svc;
    service_type = type;
  }

  no_json : Map Text Text → Text
  no_json m = []

  applied_lem :
      (ip ns app svc type : Text)
      → actions_of lib no_json (pod_call (applied_request ip ns app svc type))
        ≡ pod_applied_actions ip ns app svc type
  unfolding actions_of try_event_type
  applied_lem ip ns app svc type = refl

  -- A report of a pod that runs arrives and is answered.
  pub pod_is_reported :
      {r : Threads lib} (s : Threads lib) (ip ns app svc type : Text)
      → Moves lib r s
      → Moves lib r
          (record s { core = run_actions lib s.core (pod_applied_actions ip ns app svc type) })
  pod_is_reported {r} s ip ns app svc type run =
      let actions = pod_applied_actions ip ns app svc type in
      let arrived =
        subst (λ xs. Moves lib r (record s { calls = s.calls ++ xs ∷ [] }))
          (applied_lem ip ns app svc type)
          (more run (call s no_json (pod_call (applied_request ip ns app svc type)))) in
      subst
        (λ calls. Moves lib r (record s { core = run_actions lib s.core actions; calls = calls }))
        (append-nil s.calls)
        (call_goes_on (record s { calls = s.calls ++ actions ∷ [] }) s.calls actions refl arrived)
