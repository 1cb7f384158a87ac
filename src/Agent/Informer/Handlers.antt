-- ===== src/Agent/Informer/Handlers.antt =====
-- The handlers of cluster-agent/src/kubernetes as the informers of informer_factory.rs have them. The
-- pod and the service handler share the registry; the others share nothing.
use qubit.Base.{Text, []}
use qubit.Agent.Objects.{ObjectMeta, Pod, Service, ConfigMap, Event}
use qubit.Agent.Registry.{ServiceRegistry}
use qubit.Agent.Envoy.{YamlLib}
use qubit.Agent.Handlers.{
  pod_on_apply, pod_on_delete, service_on_apply, service_on_delete, generic_event,
}
use qubit.Agent.Events.{event_on_apply, event_on_delete}
use qubit.Agent.ConfigMaps.{configmap_on_apply, configmap_on_delete}
use qubit.Agent.Informer.{EventHandler}

abbrev pub pod_handler : EventHandler ServiceRegistry Pod
pod_handler = record {
  on_apply = λ registry pod. (registry, pod_on_apply registry pod);
  on_delete = λ registry pod. (registry, pod_on_delete pod);
  on_init_apply = λ registry pod. (registry, []);
  on_init_done = λ registry. (registry, []);
}

abbrev pub service_handler : EventHandler ServiceRegistry Service
service_handler = record {
  on_apply = service_on_apply;
  on_delete = service_on_delete;
  on_init_apply = service_on_apply;
  on_init_done = λ registry. (registry, []);
}

module _ {S : Type 0} where
  abbrev pub configmap_handler : YamlLib → EventHandler S ConfigMap
  configmap_handler y = record {
    on_apply = λ s cm. (s, configmap_on_apply y cm);
    on_delete = λ s cm. (s, configmap_on_delete y cm);
    on_init_apply = λ s cm. (s, configmap_on_apply y cm);
    on_init_done = λ s. (s, []);
  }

  abbrev pub event_handler : EventHandler S Event
  event_handler = record {
    on_apply = λ s event. (s, event_on_apply event);
    on_delete = λ s event. (s, event_on_delete event);
    on_init_apply = λ s event. (s, event_on_apply event);
    on_init_done = λ s. (s, []);
  }

  -- The generic handler reads the metadata only.
  abbrev pub generic_handler : Text → EventHandler S ObjectMeta
  generic_handler resource_type = record {
    on_apply = λ s meta. (s, generic_event resource_type 0 meta);
    on_delete = λ s meta. (s, generic_event resource_type 1 meta);
    on_init_apply = λ s meta. (s, generic_event resource_type 0 meta);
    on_init_done = λ s. (s, []);
  }
