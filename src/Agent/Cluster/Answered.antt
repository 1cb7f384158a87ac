-- ===== src/Agent/Cluster/Answered.antt =====
-- cluster-agent/src/kubernetes and core/src/server/grpc.rs: a run in which nothing happens but that
-- messages arrive and are answered.
use mathlib.Core.List.{append-nil}
use qubit.Base.{
  ℕ, Text, Bool, true, false, Option, none, some, List, [], ◌∷◌, ◌++◌, ◌≡◌, refl, ap, subst, ◌∙◌,
}
use qubit.Base.Map.{Map}
use qubit.Agent.Envoy.{YamlLib}
use qubit.Agent.Handlers.{Message, deliver}
use qubit.Agent.Cluster.{Cluster, call_for, Turn, arrive, access, reply_sent, Run, here, next}
use qubit.Agent.Cluster.Runs.{with_core, deliver-answer}
use qubit.Core.Cache.{CacheLib}
use qubit.Core.Grpc.{System}
use qubit.Core.Grpc.Calls.{Action, actions_of, act, run_actions, run_actions-answer}

module _ (lib : CacheLib) (y : YamlLib) (to_json : Map Text Text → Text) where
  -- The message that arrives in a turn.
  abbrev pub arriving : {s u : Cluster lib y to_json} → Turn lib y to_json s u → Option Message
  arriving (arrive s now before after m e) = some m
  arriving _ = none

  -- Whether a turn is a step of an answer.
  abbrev pub is_answer : {s u : Cluster lib y to_json} → Turn lib y to_json s u → Bool
  is_answer (access s before after a rest e) = true
  is_answer (reply_sent s before after e) = true
  is_answer _ = false

  -- A run with the messages that arrive in it, in order. Every other turn is a step of an answer.
  pub data Answered (s : Cluster lib y to_json)
      : List Message → Cluster lib y to_json → Type 0 where
    nothing : Answered s [] s
    arrives :
        {ms : List Message} {t u : Cluster lib y to_json} (m : Message)
        → Answered s ms t
        → (turn : Turn lib y to_json t u) → arriving turn ≡ some m
        → Answered s (ms ++ m ∷ []) u
    is_served :
        {ms : List Message} {t u : Cluster lib y to_json}
        → Answered s ms t
        → (turn : Turn lib y to_json t u) → is_answer turn ≡ true
        → Answered s ms u

  -- It is a run of agent and core together.
  Run-Answered :
      {s u : Cluster lib y to_json} {ms : List Message} → Answered s ms u → Run lib y to_json s u
  Run-Answered nothing = here
  Run-Answered (arrives m r turn e) = next (Run-Answered r) turn
  Run-Answered (is_served r turn e) = next (Run-Answered r) turn

  -- A call goes on to its end.
  answer_all :
      {r : Cluster lib y to_json} {ms : List Message} (s : Cluster lib y to_json)
      (before : List (List Action)) (actions : List Action)
      → s.core.calls ≡ before ++ actions ∷ []
      → Answered r ms s
      → Answered r ms (record s {
        core = record s.core { core = run_actions lib s.core.core actions; calls = before ++ [] };
      })
  answer_all s before [] e run = is_served run (reply_sent s before [] e) refl
  answer_all s before (a ∷ rest) e run =
      answer_all
        (record s {
          core = record s.core { core = act lib s.core.core a; calls = before ++ rest ∷ [] };
        })
        before rest refl (is_served run (access s before [] a rest e) refl)

  -- A message arrives and is answered before anything else happens.
  pub answer_message :
      {r : Cluster lib y to_json} {ms : List Message} (s : Cluster lib y to_json) (now : ℕ)
      (before after : List Message) (m : Message)
      → s.sent ≡ before ++ m ∷ after
      → Answered r ms s
      → Answered r (ms ++ m ∷ []) (
          with_core lib y to_json s
            (before ++ after)
            (deliver lib to_json now (record { core = s.core.core; tasks = [] }) m).core)
  answer_message {r} {ms} s now before after m e run =
      let actions = actions_of lib to_json (call_for now m) in
      let whole : System lib = record { core = s.core.core; tasks = [] } in
      let t : Cluster lib y to_json = record s {
        sent = before ++ after;
        core = record s.core { calls = s.core.calls ++ actions ∷ [] };
      } in
      let served =
        answer_all t s.core.calls actions refl
          (arrives m run (arrive s now before after m e) refl) in
      let answered =
        run_actions-answer lib to_json whole (call_for now m)
        ∙ ap (λ (x : System lib). x.core) (deliver-answer lib y to_json now whole m) in
      subst
        (λ calls. Answered r (ms ++ m ∷ []) (record t {
          core = record s.core { core = (deliver lib to_json now whole m).core; calls = calls };
        }))
        (append-nil s.core.calls)
        (subst
          (λ core'.
            Answered r (ms ++ m ∷ [])
              (record t { core = record s.core { core = core'; calls = s.core.calls ++ [] } }))
          answered served)
