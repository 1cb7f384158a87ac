-- ===== src/Agent/Events/Reader.antt =====
-- cluster-agent/src/kubernetes/event_handler.rs: a reader of the whole text.
use qubit.Base.{
  ℕ, ◌-◌, ◌^◌, Text, nat_eq, codes, concat, cut, cut_found, Lacks, show_nat-Lacks, ◌==◌, ◌>>=◌,
  if◌then◌else◌, true, false, Option, none, some, [], ◌∷◌, ◌++◌, ◌≡◌, refl, arith,
}
use mathlib.Core.List.{append_assoc}
use qubit.Agent.Objects.{Event}
use qubit.Agent.Events.{escape_json, or_text, or_one, show_i32, quoted, key, build_event_data}
use qubit.Agent.Events.Laws.{read_string, readable, read_string-escape_json}

-- What follows an expected text.
unfoldable pub expect : Text → Text → Option Text
expect [] t = some t
expect (p ∷ ps) [] = none
expect (p ∷ ps) (c ∷ t) = let rest = expect ps t in if c == p then rest else none

expect-append : (p t : Text) → expect p (p ++ t) ≡ some t
unfolding expect
expect-append [] t = refl
expect-append (c ∷ p) t = ground (arith, expect-append p t)

pub record EventData : Type 0 where
  pub reason : Text
  pub message : Text
  pub type_name : Text
  pub count : Text
  pub kind : Text
  pub name : Text
  pub namespace : Text

-- a member of the object: what stands before its key, the key and its text
unfoldable pub read_member : Text → Text → Option (Text × Text)
read_member start t = do t' ← expect start t; t'' ← expect (34 ∷ []) t'; read_string false t''

unfoldable pub read_event_data : Text → Option EventData
read_event_data t = do
  reason ← read_member (123 ∷ key (codes "reason")) t
  message ← read_member (44 ∷ key (codes "message")) reason.1
  type_name ← read_member (44 ∷ key (codes "type")) message.1
  number ← expect (44 ∷ key (codes "count")) type_name.1
  count ← cut 44 number
  kind ← read_member (key (codes "involved_kind")) count.1
  name ← read_member (44 ∷ key (codes "involved_name")) kind.1
  namespace ← read_member (44 ∷ key (codes "involved_namespace")) name.1
  end ← expect (125 ∷ []) namespace.1
  some (record {
    reason = reason.0;
    message = message.0;
    type_name = type_name.0;
    count = count.0;
    kind = kind.0;
    name = name.0;
    namespace = namespace.0;
  })

read_member_lem :
    (start s t : Text)
    → readable s ≡ true
    → read_member start (start ++ (quoted s ++ t)) ≡ some (s, t)
unfolding read_member quoted expect
read_member_lem start s t good = ground (
  arith,
  expect-append start (quoted s ++ t),
  append_assoc (escape_json s) (34 ∷ []) t,
  read_string-escape_json s t,
)

show_i32-Lacks : (n : ℕ) → Lacks 44 (show_i32 n)
unfolding show_i32
show_i32-Lacks n = ground (arith, show_nat-Lacks 44 n, show_nat-Lacks 44 (2 ^ 32 - n))

-- The data of an event, with the defaults of the source.
abbrev pub data_of : Event → EventData
data_of event = record {
  reason = or_text event.reason [];
  message = or_text event.message [];
  type_name = or_text event.type_name (codes "Normal");
  count = show_i32 (or_one event.count);
  kind = or_text event.involved_object.kind [];
  name = or_text event.involved_object.name [];
  namespace = or_text event.involved_object.namespace [];
}

-- Every text of the event is readable.
abbrev pub IsReadable : EventData → Type 0
IsReadable d =
    (readable d.reason ≡ true)
    × (readable d.message ≡ true)
    × (readable d.type_name ≡ true)
    × (readable d.kind ≡ true)
    × (readable d.name ≡ true)
    × (readable d.namespace ≡ true)

-- If the texts of an event of Kubernetes have no control character but line feeds and carriage
-- returns, a reader of JSON reads from the text that the agent builds the event's data: its
-- texts, with the defaults for those that are missing, and the count in decimal.
pub read_event_data-build_event_data :
    (event : Event)
    → IsReadable (data_of event)
    → read_event_data (build_event_data event) ≡ some (data_of event)
unfolding read_event_data build_event_data concat
read_event_data-build_event_data event (r, m, t, k, n, ns) =
    let d = data_of event in
    let reason = λ (u : Text). read_member_lem (123 ∷ key (codes "reason")) d.reason u r in
    let message = λ (u : Text). read_member_lem (44 ∷ key (codes "message")) d.message u m in
    let type_name = λ (u : Text). read_member_lem (44 ∷ key (codes "type")) d.type_name u t in
    let number = λ (u : Text). expect-append (44 ∷ key (codes "count")) u in
    let count = λ (u : Text). cut_found 44 d.count u (show_i32-Lacks (or_one event.count)) in
    let kind = λ (u : Text). read_member_lem (key (codes "involved_kind")) d.kind u k in
    let name = λ (u : Text). read_member_lem (44 ∷ key (codes "involved_name")) d.name u n in
    let namespace =
      λ (u : Text). read_member_lem (44 ∷ key (codes "involved_namespace")) d.namespace u ns in
    simp (
      reason,
      message,
      type_name,
      number,
      count,
      kind,
      name,
      namespace,
      expect-append (125 ∷ []) [],
    )
