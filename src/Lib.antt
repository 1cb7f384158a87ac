-- ===== src/Lib.antt =====
-- Qubit draws the map of the calls between the services of a Kubernetes cluster. A program in the
-- kernel (ebpf) sees HTTP requests, a loader on each node (ebpf-loader) sends them to the
-- aggregation server (core), an agent (cluster-agent) tells the server which pod has which
-- address, and the server keeps a graph of nodes and flows that a user interface and a tool
-- server (mcp-server) read. This library models the capture of a request, the agent's reports and
-- the server: how an event becomes an edge, how an address that becomes known is replaced by its
-- name, and what part of the graph a view shows, which rows are stored, and what the tools
-- answer.
--
-- Base has the types and lemmas that the parts share: texts, which are lists of bytes, as core's
-- strings are in UTF-8 (Base/Bytes, Base/Split, Base/Decimal), maps as association lists
-- (Base/Map) and lists and equality (Base/Lists, Base/Equality). A hash map of the program is an
-- association list and a hash set is a list; the theorems speak of lookups and membership, which
-- do not depend on the order.
--
-- Core/Topology: `Topology` of core/src/topology/topology.rs. `add_node`, `add_flow`,
-- `add_k8s_event` and `resolve_unknown_node` take the graph and return the new one.
-- Topology/Invariant is about the agreement of the two flow indexes, Topology/Move about the
-- steps of the renaming of a node and Topology/Resolve about the renaming as a whole,
-- Topology/Distinct about repeated flows, Topology/Closed about the ends of flows.
--
-- Core/Subgraph: `get_subgraph` of the same file. The loop over the depth is recursion on the
-- depth, so no fuel is needed; `visited`, `bfs_edges` and `next` are the fields of `Bfs`.
-- Subgraph/Search is about what is visited, Subgraph/Tree about the recorded edges,
-- Subgraph/Visible about the loops that fill the result and Subgraph/View about the result.
--
-- Core/Ip and Core/Host: the texts of addresses of core/src/model/model.rs, on a little-endian
-- host, and `parse_k8s_host` of core/src/aggregator/ebpf_aggregator.rs. What the standard library
-- does to split a text, to print an address and to parse one is written out. Ports, addresses and
-- times keep the width that the source casts to.
--
-- Core/State is the state that the aggregators share. A lock is its value and whether it is
-- poisoned. Core/Cache describes the caches of the moka crate, a parameter of everything that
-- uses them, with the laws of a map as hypotheses; association lists meet them. Core/Ebpf is
-- `record_ebpf_event` of core/src/aggregator/ebpf_aggregator.rs with every branch and answer;
-- Ebpf/Laws is about one event, Ebpf/Repeat about a second one and Ebpf/Stored about what the
-- store keeps. Core/K8s is core/src/aggregator/k8s_aggregator.rs; rows for the database are
-- appended to a queue, and the clock and the JSON text of labels are arguments. Core/Grpc is the
-- handlers of core/src/server/grpc.rs on the messages of core/proto/qubit.proto: an event of the
-- loader becomes a task, and Grpc/Interleaving runs calls, tasks and panics in any order. A call
-- or a task is one step there. Ebpf/Phases splits `record_ebpf_event` at every read of a cache
-- and every lock, Grpc/Calls makes of a call of another handler the accesses to caches and to the
-- topology that it does one after the other, which amount to the whole handler when nothing
-- interrupts them, Grpc/Puts says which reports on addresses they hold, Grpc/Threads runs all
-- these threads interleaved at these points, Grpc/Races is about the keys that the threads claim,
-- Grpc/Alone lets one thread or call go on while the others wait, Grpc/Carried follows a flow
-- through any of their runs, and Grpc/Late is about a report of a pod that comes between a
-- resolution and its store.
--
-- Core/Dao: the database of core/src/dao/db.rs. The client of the clickhouse crate is a parameter
-- (Dao/Rows): it is given the texts of the statements, and a call may fail with a message. Its
-- laws say what a successful answer to the statements that are used means, that an insertion
-- becomes visible with its last call, which stores at most a part of the rows when it fails, and
-- that a page is a part of the rows in some order that the sorting allows. Dao/Statements is
-- about the texts, Dao/Laws about a batch of events and Dao/Kept about the rows after it,
-- whatever it answers. Core/Flush is one tick of `start_flush_timer` of
-- core/src/aggregator/ebpf_aggregator.rs, with the time as an argument; Flush/Laws is about which
-- flows are stored, Flush/Recorded about the way from an event to a row with any run of the
-- threads in between, and Flush/Timer runs the timer's task next to core's threads, where the
-- graph may change between a tick's read and its write. Core/Pages is the two paginated endpoints
-- of core/src/server/handler.rs, whose product of page number and size wraps at 64 bits as in a
-- release build. Grpc/Directory states what a reader may expect of the pod cache after any run.
--
-- Core/Start is `run` of core/src/lib.rs: the tables are made, the servers start over an empty
-- state, and the first one that ends ends core. Start/Laws says when they start and what a
-- failure leaves.
--
-- Core/Query is the answers about the graph: `get_topology` of core/src/server/query.rs,
-- `topology` and `topology_subgraph` of core/src/server/handler.rs. Building a hash map from an
-- iterator inserts the entries one by one.
--
-- Capture: from a packet to the message for core. Capture/Parse is ebpf-common/src/lib.rs, with
-- the event as a record and `position` and `windows` as recursion on the bytes; Parse/Line is
-- about the first line of the payload, where the conversion of any bytes into text is an
-- argument; Capture/Utf8 is the standard library's test for well-formed text; Capture/Filter is
-- `http_filter` of ebpf/src/main.rs over a packet that is a parameter; Capture/Loader is
-- `handle_tcp_event` of ebpf-loader/src/loader/ebpf_loader.rs, which reads the memory that the
-- kernel program has written, and Capture/Delivery is the message of
-- ebpf-loader/src/service/qubit_aggregator.rs on its way to core. Both run on one little-endian
-- machine and lay out the event as C does.
--
-- Agent: what the agent tells core. Agent/Objects has the fields of the Kubernetes objects that
-- are read; Agent/Registry is `ServiceRegistry` of
-- cluster-agent/src/kubernetes/service_registry.rs; Agent/Handlers is `PodHandler`,
-- `ServiceHandler` and `GenericHandler` of the same directory, with the requests of
-- cluster-agent/src/service/cluster_aggregator.rs and `send_initial_pod_service_map` of
-- cluster-agent/src/server/mod.rs. A handler returns the messages that it spawns tasks for, and
-- `deliver` hands a message to Core/Grpc. Agent/Envoy is
-- cluster-agent/src/kubernetes/envoy_parser.rs over a parameter for the YAML library; its nested
-- loops are `flat_map` over the sequences, and Envoy/Clusters, Envoy/Hosts and Envoy/Routes
-- follow its two passes. Agent/ConfigMaps is configmap_handler.rs and
-- `send_envoy_routes_from_configmaps` of cluster-agent/src/server/mod.rs, Agent/Events is
-- event_handler.rs, with a reader of JSON in Events/Laws and Events/Reader to compare with.
-- Agent/Informer is `start` of informer.rs and node_informer.rs over the stream of a watcher,
-- with the handlers in Informer/Handlers; Agent/Server is informer_factory.rs, controller.rs and
-- the end of `run` of cluster-agent/src/server/mod.rs. Handlers/Resync is about the initial map,
-- which the agent sends again every 30 seconds.
--
-- Agent/Cluster is agent and core together: the agent reacts to watched events, its messages are
-- on their way in tasks of their own, and core is the one of Core/Grpc/Threads. Cluster/Runs
-- shows that core's part of a run is an interleaving of that module, Cluster/Told is about what
-- core knows of addresses, Cluster/Answered has the runs in which messages arrive and are
-- answered and nothing else happens, and Cluster/Late is about messages that overtake each other.
--
-- LoadTests: the two streams of load-tests/src/main.rs, over the API of Kubernetes as a parameter
-- (LoadTests/Api); the number of rounds until the deadline is an argument.
--
-- McpServer: the tool server. McpServer/Sql is the texts of the queries of
-- mcp-server/src/ch_client.rs, and Sql/Laws is about their quotes; McpServer/Answers and
-- McpServer/Events are the answers of mcp-server/src/tools.rs, about the graph and about stored
-- rows; Answers/Laws is about the answer for one service and Answers/Graph about the one for the
-- whole graph. The sorting of the keys is an argument.
--
-- Not modelled: the log, the connections to the database and between the programs, the HTTP and
-- gRPC servers, the watchers of the Kubernetes API, the rest of the start-up and the
-- configuration of each program, generated code, the arguments and the report of the load
-- generator, and the user interface.
--
-- Core/Tests, Capture/Tests, Agent/Tests, McpServer/Tests and LoadTests/Tests apply the theorems
-- to concrete graphs, states and events.
pub mod Agent
pub mod Base
pub mod Capture
pub mod Core
pub mod LoadTests
pub mod McpServer
