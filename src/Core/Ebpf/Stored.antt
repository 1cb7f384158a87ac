-- ===== src/Core/Ebpf/Stored.antt =====
-- core/src/aggregator/ebpf_aggregator.rs: the topology after the block under its lock.
use qubit.Base.{inl, inr, refl}
use qubit.Core.Topology.{add_node}
use qubit.Core.Topology.Closed.{
  IsSound, HasNode, add_node-IsSound, add_flow-IsSound, HasNode-add_node,
}
use qubit.Core.State.{EbpfNetworkEventInput}
use qubit.Core.Topology.{Topology}
use qubit.Core.Ebpf.{Resolved, store, node_of}
use qubit.Core.Ebpf.Laws.{HasFlow-store}

pub store-IsSound :
    (t : Topology) (input : EbpfNetworkEventInput) (src dst : Resolved)
    → IsSound t
    → IsSound (store t input src dst)
unfolding store
store-IsSound t input src dst h =
    let t' = add_node t (node_of src) _ in
    let u = add_node t' (node_of dst) _ in
    add_flow-IsSound u _
      ((HasNode-add_node t' (node_of dst) _ (node_of src)).1
        (inl ((HasNode-add_node t (node_of src) _ (node_of src)).1 (inr refl))))
      ((HasNode-add_node t' (node_of dst) _ (node_of dst)).1 (inr refl))
      (add_node-IsSound t' _ _ (add_node-IsSound t _ _ h))

pub destination_known :
    (t : Topology) (input : EbpfNetworkEventInput) (src dst : Resolved)
    → IsSound t
    → HasNode (store t input src dst) (node_of dst)
destination_known t input src dst h =
    (store-IsSound t input src dst h).destination_known _
      ((HasFlow-store t input src dst _).1 (inr refl))
