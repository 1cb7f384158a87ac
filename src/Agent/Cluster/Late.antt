-- ===== src/Agent/Cluster/Late.antt =====
-- cluster-agent/src/kubernetes/pod_handler.rs: each message has a task of its own, so a report that a
-- pod is gone may overtake the one that it runs.
use mathlib.Core.List.{append-nil, append_assoc}
use qubit.Base.{
  Text, text_eq, ==_iff, Option, none, some, List, [], ◌∷◌, ◌++◌, ◌≡◌, refl, sym, subst, ap, ◌∙◌,
  arith,
}
use qubit.Base.Map.{Map}
use qubit.Agent.Objects.{Pod}
use qubit.Agent.Envoy.{YamlLib}
use qubit.Agent.Handlers.{
  Message, pod_ip, pod_on_apply, pod_on_delete, send_pod_applied, send_pod_deleted, deliver,
}
use qubit.Agent.Handlers.Laws.{info_of, applied_message, deleted_message, delivered}
use qubit.Agent.Informer.{apply, delete, handle}
use qubit.Agent.Informer.Handlers.{pod_handler}
use qubit.Agent.Cluster.{Cluster, react}
use qubit.Agent.Cluster.Answered.{Answered, nothing, answer_message}
use qubit.Agent.Cluster.Runs.{with_core}
use qubit.Core.Cache.{CacheLib}
use qubit.Core.State.{PodInfo, State}
use qubit.Core.K8s.Laws.{pod_cache_lem}
use qubit.Core.Grpc.{System}
use qubit.Core.Grpc.Directory.{entry_of}

joined : {xs ys : List Message} {m n : Message} → xs ≡ m ∷ [] → ys ≡ n ∷ [] → xs ++ ys ≡ m ∷ n ∷ []
joined {xs} {ys} {m} {n} p q = ap (λ zs. zs ++ ys) p ∙ ap (λ zs. m ∷ zs) q

module _ (lib : CacheLib) (y : YamlLib) (to_json : Map Text Text → Text) (s : Cluster lib y to_json)
    (pod : Pod) where
  -- The watcher tells that the pod changes, and then that it is gone.
  abbrev pub after_delete : Cluster lib y to_json
  after_delete =
      let t = react lib y to_json s (handle pod_handler s.registry (apply pod)) in
      react lib y to_json t (handle pod_handler t.registry (delete pod))

  abbrev only : State lib → System lib
  only core = record { core = core; tasks = [] }

  waiting :
      (ip : Text)
      → pod_ip pod ≡ some ip
      → let i = info_of s.registry pod in
        after_delete.sent
        ≡ (s.sent
            ++ send_pod_applied ip i.namespace i.application_name i.service_name i.service_type
              ∷ [])
          ++ send_pod_deleted ip ∷ []
  unfolding handle
  waiting ip known =
      let core = only s.core.core in
      rw
        (
          applied_message lib to_json 0 core s.registry pod ip known,
          deleted_message lib to_json 0 core s.registry pod ip known,
        )
        refl

  -- What core's pod cache has of the pod after one delivery of its report.
  told :
      (core : System lib) (ip : Text)
      → let i = info_of s.registry pod in
        entry_of lib
          (deliver lib to_json 0 core
            (send_pod_applied ip i.namespace i.application_name i.service_name i.service_type)).core
          ip
        ≡ some i
  told core ip =
      let i = info_of s.registry pod in
      let cache =
        pod_cache_lem lib core.core ip i.namespace i.application_name i.service_name i.service_type
          ip in
      ap (λ (x : State lib). entry_of lib x ip) (delivered lib to_json 0 core s.registry pod ip).0
      ∙ ground (arith, cache.0, ==_iff ip ip)

  -- A report that the pod is gone leaves nothing of it.
  untold :
      (core : System lib) (ip : Text)
      → entry_of lib (deliver lib to_json 0 core (send_pod_deleted ip)).core ip ≡ none
  untold core ip =
      let cache = pod_cache_lem lib core.core ip [] [] [] [] ip in
      ap (λ (x : State lib). entry_of lib x ip) (delivered lib to_json 0 core s.registry pod ip).1
      ∙ ground (arith, cache.1, ==_iff ip ip)

  abbrev applied_report : Text → Message
  applied_report ip =
      let i = info_of s.registry pod in
      send_pod_applied ip i.namespace i.application_name i.service_name i.service_type

  -- A run after the deletion in which just these messages arrive, and are answered, and what core
  -- knows of the address then.
  abbrev pub ComesTo : List Message → Text → Option PodInfo → Type 0
  ComesTo messages ip known =
      (u : Cluster lib y to_json) × Answered lib y to_json after_delete messages u
      × (u.sent ≡ s.sent)
      × (u.core.calls ≡ s.core.calls)
      × (entry_of lib u.core.core ip ≡ known)

  in_order :
      (ip : Text)
      → pod_ip pod ≡ some ip
      → ComesTo (applied_report ip ∷ send_pod_deleted ip ∷ []) ip none
  unfolding handle
  in_order ip known =
      let said = applied_report ip in
      let gone = send_pod_deleted ip in
      let first = only (deliver lib to_json 0 (only s.core.core) said).core in
      (
        with_core lib y to_json after_delete (s.sent ++ []) (deliver lib to_json 0 first gone).core,
        answer_message lib y to_json
            (with_core lib y to_json after_delete (s.sent ++ gone ∷ []) first.core) 0 s.sent [] gone
            refl
            (answer_message lib y to_json after_delete 0 s.sent (gone ∷ []) said
              (waiting ip known ∙ append_assoc s.sent (said ∷ []) (gone ∷ [])) nothing),
        append-nil s.sent,
        refl,
        untold first ip,
      )

  overtaken :
      (ip : Text)
      → pod_ip pod ≡ some ip
      → ComesTo (send_pod_deleted ip ∷ applied_report ip ∷ []) ip (some (info_of s.registry pod))
  unfolding handle
  overtaken ip known =
      let said = applied_report ip in
      let gone = send_pod_deleted ip in
      let first = only (deliver lib to_json 0 (only s.core.core) gone).core in
      (
        with_core lib y to_json after_delete (s.sent ++ []) (deliver lib to_json 0 first said).core,
        answer_message lib y to_json
            (with_core lib y to_json after_delete ((s.sent ++ said ∷ []) ++ []) first.core) 0 s.sent
            [] said (append-nil (s.sent ++ said ∷ []))
            (answer_message lib y to_json after_delete 0 (s.sent ++ said ∷ []) [] gone
              (waiting ip known) nothing),
        append-nil s.sent,
        refl,
        told first ip,
      )

  messages :
      (ip : Text)
      → pod_ip pod ≡ some ip
      → (pod_on_apply s.registry pod ≡ applied_report ip ∷ [])
        × (pod_on_delete pod ≡ send_pod_deleted ip ∷ [])
  messages ip known =
      let core = only s.core.core in
      (
        applied_message lib to_json 0 core s.registry pod ip known,
        deleted_message lib to_json 0 core s.registry pod ip known,
      )

  -- From every state of agent and core, after a pod with an address is applied and then deleted,
  -- there are two runs in which nothing happens but that the messages of the pod handler for it
  -- arrive and are answered step by step; afterwards the messages on their way and the calls in
  -- progress are those from before the pod was applied. In the one run they arrive in the order
  -- in which the handler sent them, and core's pod cache has nothing under the address; in the
  -- other the message of the deletion overtakes, and the cache has the deleted pod, with the data
  -- that the handler found.
  pub late_report-stays :
      (ip : Text)
      → pod_ip pod ≡ some ip
      → ComesTo (pod_on_apply s.registry pod ++ pod_on_delete pod) ip none
        × ComesTo
            (pod_on_delete pod ++ pod_on_apply s.registry pod)
            ip
            (some (info_of s.registry pod))
  late_report-stays ip known =
      let (applies, deletes) = messages ip known in
      (
        subst (λ ms. ComesTo ms ip none) (sym (joined applies deletes)) (in_order ip known),
        subst (λ ms. ComesTo ms ip (some (info_of s.registry pod))) (sym (joined deletes applies))
            (overtaken ip known),
      )
