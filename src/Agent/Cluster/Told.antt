-- ===== src/Agent/Cluster/Told.antt =====
-- Agent and core together: what core knows of an address against what the agent has said of it.
use mathlib.Core.List.Memᴰ
use mathlib.Core.List.{append_assoc}
use qubit.Base.{
  ℕ, Text, some, List, [], ◌∷◌, ◌++◌, Memᴰ, ◌≡◌, inl, inr, refl, sym, ap, subst, ◌∙◌, arith,
}
use qubit.Base.Map.{Map}
use qubit.Agent.Envoy.{YamlLib}
use qubit.Agent.Handlers.{
  Message, pod_event, service_event, resource_event, pod_map, config_map_event, envoy_routes,
  send_initial_pod_service_map,
}
use qubit.Agent.ConfigMaps.{send_envoy_routes_from_configmaps}
use qubit.Agent.Informer.{handle}
use qubit.Agent.Informer.Handlers.{
  pod_handler, service_handler, configmap_handler, event_handler, generic_handler,
}
use qubit.Agent.Registry.{ServiceRegistry}
use qubit.Agent.Cluster.{
  Cluster, call_for, react, Turn, pods, services, config_maps, k8s_events, resources, resync_pods,
  resync_routes, arrive, lose, network_event, proceed, access, reply_sent, panic_topology,
  panic_seen, Run, here, next,
}
use qubit.Core.Cache.{CacheLib}
use qubit.Core.State.{PodInfo, State}
use qubit.Core.Ebpf.{record_flow}
use qubit.Core.Ebpf.Phases.{
  Progress, started, sourced, unrouted, named, resolved, claimed, finished, advance,
}
use qubit.Core.Grpc.Calls.{Action, actions_of, act}
use qubit.Core.Grpc.Puts.{puts, puts-append, puts-actions_of, call_reports, act-said}
use qubit.Core.Grpc.Directory.{PodReport, running, entry_of}

-- What a message says of addresses, at whatever time it arrives.
abbrev pub reports_of : Message → List PodReport
reports_of m = call_reports (call_for 0 m)

abbrev pub said : List Message → List PodReport
said [] = []
said (m ∷ ms) = reports_of m ++ said ms

abbrev pub IsWithin : List PodReport → List PodReport → Type 0
IsWithin rs all = (r : PodReport) → Memᴰ r rs → Memᴰ r all

reports_of-call_for : (now : ℕ) (m : Message) → call_reports (call_for now m) ≡ reports_of m
unfolding call_for
reports_of-call_for now (pod_event req) = refl
reports_of-call_for now (service_event req) = refl
reports_of-call_for now (resource_event req) = refl
reports_of-call_for now (pod_map entries) = refl
reports_of-call_for now (config_map_event req) = refl
reports_of-call_for now (envoy_routes entries) = refl

-- One of several is taken out.
module _ {A : Type 0} (before after : List A) (x : A) (whole : List A)
    (e : whole ≡ before ++ x ∷ after) where
  first_of : Memᴰ x whole
  first_of = subst (Memᴰ x) (sym e) (Memᴰ.append_right before (Memᴰ.head refl))

  rest_of : (y : A) → Memᴰ y (before ++ after) → Memᴰ y whole
  rest_of y at_y = subst (Memᴰ y) (sym e) (elim (Memᴰ.append_cases before at_y) [
    | inl early ↦ Memᴰ.append_left (x ∷ after) early
    | inr late ↦ Memᴰ.append_right before (Memᴰ.tail late)
  ])

module _ (lib : CacheLib) (y : YamlLib) (to_json : Map Text Text → Text) where
  -- What the agent says in a turn.
  abbrev pub said_in : {s u : Cluster lib y to_json} → Turn lib y to_json s u → List Message
  said_in (pods s ev) = (handle pod_handler s.registry ev).1
  said_in (services s ev) = (handle service_handler s.registry ev).1
  said_in (config_maps s ev) = (handle (configmap_handler y) s.registry ev).1
  said_in (k8s_events s ev) = (handle event_handler s.registry ev).1
  said_in (resources s type ev) = (handle (generic_handler type) s.registry ev).1
  said_in (resync_pods s svcs ps) = send_initial_pod_service_map svcs ps ∷ []
  said_in (resync_routes s cms) = send_envoy_routes_from_configmaps y cms
  said_in _ = []

  abbrev pub said_by : {s u : Cluster lib y to_json} → Run lib y to_json s u → List PodReport
  said_by here = []
  said_by (next r turn) = said_by r ++ said (said_in turn)

  advance-pods : (s : State lib) (p : Progress) → (advance lib s p).0.pod_cache ≡ s.pod_cache
  unfolding advance record_flow
  advance-pods s (started input) = ground arith
  advance-pods s (sourced input src) = ground arith
  advance-pods s (unrouted input src) = ground arith
  advance-pods s (named input src name) = refl
  advance-pods s (resolved input src dst) = ground arith
  advance-pods s (claimed input src dst) = ground arith
  advance-pods s (finished answer) = refl

  -- The agent has said all that core knows of addresses, all that its calls have still to tell it
  -- and all that is on its way.
  pub record IsTold (s : Cluster lib y to_json) (all : List PodReport) : Type 0 where
    pub known :
        (key : Text) (info : PodInfo)
        → entry_of lib s.core.core key ≡ some info
        → Memᴰ (running key info) all
    pub waits : (m : Message) → Memᴰ m s.sent → IsWithin (reports_of m) all
    pub doing : (xs : List Action) → Memᴰ xs s.core.calls → IsWithin (puts xs) all

  IsWithin-said : (ms : List Message) (m : Message) → Memᴰ m ms → IsWithin (reports_of m) (said ms)
  IsWithin-said [] m at_m r at_r = absurd (Memᴰ.not-nil at_m)
  IsWithin-said (n ∷ ms) m at_m r at_r = elim (Memᴰ.cases_cons at_m) [
    | inl same ↦ Memᴰ.append_left (said ms) (subst (λ x. Memᴰ r (reports_of x)) same at_r)
    | inr later ↦ Memᴰ.append_right (reports_of n) (IsWithin-said ms m later r at_r)
  ]

  -- The messages that a turn adds, and what it makes of the reports that core has.
  said_more :
      (s : Cluster lib y to_json) (all : List PodReport) (registry' : ServiceRegistry)
      (messages : List Message)
      → IsTold s all
      → IsTold (react lib y to_json s (registry', messages)) (all ++ said messages)
  said_more s all registry' messages told = record {
    known = λ key info h. Memᴰ.append_left (said messages) (told.known key info h);
    waits = λ m in_sent. elim (Memᴰ.append_cases s.sent in_sent) [
      | inl old ↦ λ r at_r. Memᴰ.append_left (said messages) (told.waits m old r at_r)
      | inr fresh ↦ λ r at_r. Memᴰ.append_right all (IsWithin-said messages m fresh r at_r)
    ];
    doing = λ xs at_xs r at_r. Memᴰ.append_left (said messages) (told.doing xs at_xs r at_r);
  }

  reacted :
      (s : Cluster lib y to_json) (all : List PodReport) (outcome : ServiceRegistry × List Message)
      → IsTold s all
      → IsTold (react lib y to_json s outcome) (all ++ said outcome.1)
  reacted s all (registry', messages) = said_more s all registry' messages

  wider :
      {s : Cluster lib y to_json} {all : List PodReport} (more : List PodReport)
      → IsTold s all
      → IsTold s (all ++ more)
  wider more told = record {
    known = λ key info h. Memᴰ.append_left more (told.known key info h);
    waits = λ m at_m r at_r. Memᴰ.append_left more (told.waits m at_m r at_r);
    doing = λ xs at_xs r at_r. Memᴰ.append_left more (told.doing xs at_xs r at_r);
  }

  -- A message becomes a call.
  arrive-IsTold :
      (s : Cluster lib y to_json) (now : ℕ) (before after : List Message) (m : Message)
      (e : s.sent ≡ before ++ m ∷ after) (all : List PodReport)
      → IsTold s all
      → IsTold
          (record s {
            sent = before ++ after;
            core = record s.core {
              calls = s.core.calls ++ actions_of lib to_json (call_for now m) ∷ [];
            };
          })
          all
  arrive-IsTold s now before after m e all told = record {
    known = told.known;
    waits = λ n at_n. told.waits n (rest_of before after m s.sent e n at_n);
    doing = λ xs at_xs. elim (Memᴰ.append_cases s.core.calls at_xs) [
      | inl old ↦ told.doing xs old
      | inr new ↦ elim (Memᴰ.cases_cons new) [
        | inl same ↦ λ r at_r.
            let said =
              ap puts same
              ∙ (puts-actions_of lib to_json (call_for now m) ∙ reports_of-call_for now m) in
            told.waits m (first_of before after m s.sent e) r (subst (Memᴰ r) said at_r)
        | inr empty ↦ absurd (Memᴰ.not-nil empty)
      ]
    ];
  }

  -- A call does its next access.
  module _ (s : Cluster lib y to_json) (before after : List (List Action)) (a : Action)
      (rest : List Action) (e : s.core.calls ≡ before ++ (a ∷ rest) ∷ after) (all : List PodReport)
      (told : IsTold s all) where
    of_call : IsWithin (puts (a ∷ [])) all × IsWithin (puts rest) all
    of_call =
        let whole = told.doing (a ∷ rest) (first_of before after (a ∷ rest) s.core.calls e) in
        (
          λ r at_r. whole r (
              subst (Memᴰ r) (sym (puts-append (a ∷ []) rest)) (Memᴰ.append_left (puts rest) at_r)),
          λ r at_r. whole r (
              subst (Memᴰ r) (sym (puts-append (a ∷ []) rest))
                (Memᴰ.append_right (puts (a ∷ [])) at_r)),
        )

    access-IsTold :
        IsTold
          (record s {
            core = record s.core { core = act lib s.core.core a; calls = before ++ rest ∷ after };
          })
          all
    access-IsTold = record {
      known = λ key info h. elim (act-said lib s.core.core a key info h) [
        | inl new ↦ of_call.0 (running key info) new
        | inr old ↦ told.known key info old
      ];
      waits = told.waits;
      doing = λ xs at_xs. elim (Memᴰ.append_cases before at_xs) [
        | inl early ↦
            told.doing xs
              (rest_of before after (a ∷ rest) s.core.calls e xs (Memᴰ.append_left after early))
        | inr late ↦ elim (Memᴰ.cases_cons late) [
          | inl same ↦ subst (λ zs. IsWithin (puts zs) all) (sym same) of_call.1
          | inr later ↦
              told.doing xs
                (rest_of before after (a ∷ rest) s.core.calls e xs (Memᴰ.append_right before later))
        ]
      ];
    }

  Turn-IsTold :
      {s u : Cluster lib y to_json} (turn : Turn lib y to_json s u) (all : List PodReport)
      → IsTold s all
      → IsTold u (all ++ said (said_in turn))
  Turn-IsTold (pods s ev) all h = reacted s all (handle pod_handler s.registry ev) h
  Turn-IsTold (services s ev) all h = reacted s all (handle service_handler s.registry ev) h
  Turn-IsTold (config_maps s ev) all h =
      reacted s all (handle (configmap_handler y) s.registry ev) h
  Turn-IsTold (k8s_events s ev) all h = reacted s all (handle event_handler s.registry ev) h
  Turn-IsTold (resources s type ev) all h =
      reacted s all (handle (generic_handler type) s.registry ev) h
  Turn-IsTold (resync_pods s svcs ps) all h = said_more s all s.registry _ h
  Turn-IsTold (resync_routes s cms) all h = said_more s all s.registry _ h
  Turn-IsTold (arrive s now before after m e) all told =
      wider _ (arrive-IsTold s now before after m e all told)
  Turn-IsTold (lose s before after m e) all told = wider _ (record {
    known = told.known;
    waits = λ n at_n. told.waits n (rest_of before after m s.sent e n at_n);
    doing = told.doing;
  })
  Turn-IsTold (network_event s input) all told =
      wider _ (record { known = told.known; waits = told.waits; doing = told.doing })
  Turn-IsTold (proceed s before after p e) all told = wider _ (record {
    known = λ key info h.
        told.known key info
          (ap (λ c. lib.get PodInfo c key) (sym (advance-pods s.core.core p)) ∙ h);
    waits = told.waits;
    doing = told.doing;
  })
  Turn-IsTold (access s before after a rest e) all told =
      wider _ (access-IsTold s before after a rest e all told)
  Turn-IsTold (reply_sent s before after e) all told = wider _ (record {
    known = told.known;
    waits = told.waits;
    doing = λ xs at_xs. told.doing xs (rest_of before after [] s.core.calls e xs at_xs);
  })
  Turn-IsTold (panic_topology s) all told =
      wider _ (record { known = told.known; waits = told.waits; doing = told.doing })
  Turn-IsTold (panic_seen s) all told =
      wider _ (record { known = told.known; waits = told.waits; doing = told.doing })

  -- If some reports contain all that core's pod cache knows of addresses, all that core's calls
  -- in progress have still to put there and all that the messages on their way say, then after
  -- every run of agent and core together these reports and those that the agent's handlers and
  -- its initial maps made in the run contain all of it: core knows of an address only what the
  -- agent has said of it, in whatever order messages arrive or are lost and however the calls are
  -- interleaved.
  pub Run-IsTold :
      {s u : Cluster lib y to_json} (run : Run lib y to_json s u) (all : List PodReport)
      → IsTold s all
      → IsTold u (all ++ said_by run)
  Run-IsTold here all h = wider _ h
  Run-IsTold {s} {u} (next r turn) all h =
      subst (IsTold u) (append_assoc all (said_by r) (said (said_in turn)))
        (Turn-IsTold turn (all ++ said_by r) (Run-IsTold r all h))
