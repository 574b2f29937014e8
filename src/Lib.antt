-- ===== src/Lib.antt =====
-- Verification of Lightflus, a distributed dataflow engine.
--
-- A client describes a job as a dataflow, a graph of numbered operators. The coordinator validates
-- it, places its operators on the workers of its cluster, divides it by address and sends each
-- worker its part. The task manager of a worker validates the part again, builds a task for every
-- operator and connects the tasks by edges. An executor per task takes the events from its in-edge
-- or its source, runs the operator on them in a JavaScript engine and sends the results to its
-- out-edges and sinks.
--
-- The files and the code they model:
--   Base        what the rest shares: tests, comparisons, lists, std's maps, machine words and UTF-8
--   Proto       the messages of src/proto/src/common.rs: Ids and Graph (with the accessors of
--               src/proto/src/common_impl.rs), and Event, with LocalEvent of
--               src/common/src/event.rs; Validate is Dataflow::validate of common_impl.rs
--   Cluster     src/common/src/net/cluster.rs: nodes, placement and division
--   Types       TypedValue of src/common/src/types.rs: its comparisons (Order), bytes (Codec), JSON
--               (Json, with the values of serde_json in SerdeJson), text (Text) and Arithmetic
--   Worker      the task manager: Defs is Task and EdgeBuilder of src/stream/src/task.rs, Build is
--               TaskWorkerBuilder::build and Service the handlers of
--               src/lightflus-core/src/taskmanager
--   Coordinator src/lightflus-core/src/coordinator: Defs is executions.rs, scheduler.rs and
--               storage.rs, Manager is managers.rs and coord.rs, Storage the two dataflow storages
--               behind one interface, Queries the states and the acks of a job
--   Edge        src/stream/src/edge.rs: the two ends of an edge, over a channel with a capacity
--   Futures     join_all of src/common/src/futures/mod.rs
--   Net         src/common/src/net/mod.rs: the senders of heartbeats and acks
--   Collections src/common/src/collections/lang.rs: group, group_deque_as_btree_map and index_map
--   Errors      src/common/src/err.rs and src/lightflus-core/src/errors/mod.rs: Rpc is RpcError in the
--               statuses of calls, Reporting the errors that are reported with it
--   Gateway     the clients of remote nodes of src/common/src/net/gateway.rs: Api is what they share,
--               with the making of clients of src/proto/src/taskmanager_impl.rs and
--               src/proto/src/coordinator_impl.rs, TaskManager and Coordinator the two gateways
--   Runtime     src/stream/src/v8_runtime.rs: Convert is wrap_value and to_typed_value, Engine the
--               RuntimeEngine and Laws what is assumed of the crate v8
--   Stream      Operators is src/stream/src/dataflow.rs, Defs the state of src/stream/src/state.rs
--               and Executor the StreamExecutor of src/stream/src/task.rs
--   Connector   src/stream/src/connector.rs and err.rs: Message, Kafka and KafkaSink are the source and
--               the sink of Kafka with src/common/src/kafka.rs, Mysql and Extract the sink of MySQL
--               with src/common/src/db.rs, Redis and RedisSink that of Redis with
--               src/common/src/redis.rs, Source and Sink the kinds behind one interface
--   Utils       src/common/src/utils.rs: the command line and to_dataflow
--   Tests       runs on concrete inputs, and the theorems at them
-- The other files under these prove things of what their parent models. A function has the name of
-- the one in the source; where two would share a name in a file, a word is added (worker_heartbeat,
-- manager_heartbeat). State is passed on and returned. A panic is `none`, or `panicked` where
-- bytes are decoded.
--
-- Numbers are native. An i64, a u64 and an f64 are their 64-bit patterns, and strings and bytes are
-- lists of numbers. A HashMap is iterated over in the order of insertion, which std leaves open. A
-- BTreeMap keyed by values is searched from the least key on.
--
-- Parameters, with what is assumed of them where a theorem needs it: the hash of std's
-- DefaultHasher; the formats of the crates bytes and serde_json (Formats, IsFaithful; JsonText) and
-- the text of an f64; the arithmetic of f64 (Floats); the name of the host, the size of its channels
-- and the clients of its sinks (Host); the periods and the size of the queue of the coordinator's
-- senders (Network); whether tonic parses the address of a remote node; the generated clients
-- (RpcApi); the statuses of tonic (StatusApi), the JSON of an error (BizJson) and the texts that
-- `{:?}` makes (Debug); the answers of remote nodes to calls, and of edges to writes; the values of
-- the crate v8 and its scripts (V8, IsV8, Context); the function of an operator, with a state of
-- its own (Engine), and those of a sink's scripts (Scripts); the state manager, which reads what
-- was written (StateManager); the answers of the clients of Kafka, MySQL and Redis; the tree of the
-- crate sled and the bytes of prost, whose decoding gives a dataflow with its operators in the
-- order in which they were encoded; the times of the clock; the order in which the
-- threads of a batch write its events to a channel; how many acks the queue of an AckResponder gives
-- out before it answers that nothing is there, which tokio decides; and whether the build checks integers
-- for overflow.
--
-- Fuel: TypedValue::from_vec takes fuel for arrays nested in arrays. An item is shorter than the
-- text that it is part of, so the length of the text is enough. The decimal digits of a u32 and the
-- highest bit of an i64 are found with the fuel 10 and 64, as many as there are. The fuel of
-- to_typed_value is enough where it is above the nesting of objects; that of a value that contains
-- itself, which JavaScript has, runs out. The passes of join_all take fuel, of which the
-- theorems say how much is enough; a future is given by its answers to
-- polls, and the gateways that answer calls are parameters.
--
-- Not modelled: how the clients of Kafka, MySQL and Redis connect; the HTTP handlers of the API
-- server; configuration files (src/common/src/utils.rs); the generated code of prost and tonic; the
-- gateway without a mutex, which nothing uses; the channels of tokio, of which a task's edge keeps
-- the number only; the panic of an operator or extractor whose script has no function of its name;
-- the timestamp of an event on its way to Kafka, which the producer leaves out.
pub mod Base
pub mod Proto
pub mod Types
pub mod Cluster
pub mod Worker
pub mod Coordinator
pub mod Edge
pub mod Futures
pub mod Net
pub mod Collections
pub mod Errors
pub mod Gateway
pub mod Runtime
pub mod Stream
pub mod Connector
pub mod Utils
pub mod Tests
