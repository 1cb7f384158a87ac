-- ===== src/Agent/Events.antt =====
-- cluster-agent/src/kubernetes/event_handler.rs: what is told of an event of Kubernetes.
pub mod Laws
pub mod Reader
use qubit.Base.{
  ℕ, ◌-◌, ◌^◌, Text, nat_eq, codes, concat, replace, show_nat, ltb, ◌==◌, if◌then◌else◌, or_empty,
  Option, none, some, List, [], ◌∷◌, ◌++◌,
}
use qubit.Agent.Objects.{Event}
use qubit.Agent.Handlers.{Message, resource_event}

-- backslash, quote, line feed and carriage return
unfoldable pub escape_json : Text → Text
escape_json s =
    replace 13 (92 ∷ 114 ∷ [])
      (replace 10 (92 ∷ 110 ∷ []) (replace 34 (92 ∷ 34 ∷ []) (replace 92 (92 ∷ 92 ∷ []) s)))

-- `unwrap_or`
unfoldable pub or_text : Option Text → Text → Text
or_text none default = default
or_text (some s) default = s

-- `unwrap_or(1)`
unfoldable pub or_one : Option ℕ → ℕ
or_one none = 1
or_one (some n) = n

-- An `i32`, by its bit pattern, as `format!` writes it.
unfoldable pub show_i32 : ℕ → Text
show_i32 n = if ltb n (2 ^ 31) then show_nat n else 45 ∷ show_nat (2 ^ 32 - n)

-- a text between quotes
unfoldable pub quoted : Text → Text
quoted s = 34 ∷ (escape_json s ++ 34 ∷ [])

unfoldable pub key : Text → Text
key name = 34 ∷ (name ++ 34 ∷ 58 ∷ [])

unfoldable pub build_event_data : Event → Text
build_event_data event =
    let obj = event.involved_object in
    concat (
      (123 ∷ key (codes "reason"))
      ∷ quoted (or_text event.reason [])
      ∷ (44 ∷ key (codes "message"))
      ∷ quoted (or_text event.message [])
      ∷ (44 ∷ key (codes "type"))
      ∷ quoted (or_text event.type_name (codes "Normal"))
      ∷ (44 ∷ key (codes "count"))
      ∷ show_i32 (or_one event.count)
      ∷ (44 ∷ key (codes "involved_kind"))
      ∷ quoted (or_text obj.kind [])
      ∷ (44 ∷ key (codes "involved_name"))
      ∷ quoted (or_text obj.name [])
      ∷ (44 ∷ key (codes "involved_namespace"))
      ∷ quoted (or_text obj.namespace [])
      ∷ (125 ∷ [])
      ∷ [])

unfoldable pub event_on_apply : Event → List Message
event_on_apply event =
    resource_event (record {
      resource_type = codes "Event";
      name = or_empty event.metadata.name;
      namespace = or_empty event.metadata.namespace;
      event_type = 0;
      labels = or_empty event.metadata.labels;
      resource_data = build_event_data event;
    })
    ∷ []

unfoldable pub event_on_delete : Event → List Message
event_on_delete event = []
