-- ===== src/Tests/Worker.antt =====
-- The worker of the job of three operators, and the handlers on it.
use lightflus.Base.{true, none, some, [], ◌∷◌, ◌≡◌, refl, if◌then◌else◌, same, nat_ord}
use lightflus.Base.BTreeMap
use lightflus.Base.BTreeMap.{BTreeMap}
use lightflus.Proto.Ids.{resource_id_ord, Heartbeat}
use lightflus.Worker.{
  Host, external_sink, is_remote_operator, TaskManager, build, create_sub_dataflow,
  manager_heartbeat,
}
use lightflus.Worker.Builders.{Reachable, reachable}
use lightflus.Worker.Sinks.{SinksMade, sinks_made}
use lightflus.Proto.Graph.{get_job_id, has_sink}
use lightflus.Connector.Sink.{sink_from}
use lightflus.Connector.RedisSink
use lightflus.Connector.Redis.{new_client, to_connection_info, split_colon}
use lightflus.Worker.Wiring.{build_wires}
use lightflus.Worker.Handling.{get-create, manager_heartbeat-idle, running, answer}
use lightflus.Tests.Fixtures.{words, job, left}
use lightflus.Tests.Validate.{words_valid}

-- the host of the first node, with channels of the default size: any address parses, and any client can be made
abbrev host : Host
host = record {
  hostname = some left.host;
  channel_size = 1000;
  parses = λ uri. true;
  rdkafka = record { consumes = λ c. true; produces = λ c. true };
  redis = record { parse_port = λ s. some 6379; opens = λ info. true };
  hash = λ job_id. 0;
}

reached : Reachable host words
unfolding reachable is_remote_operator
reached = (refl, (refl, (refl, (refl, tt))))

sinks : SinksMade host (get_job_id words) words
unfolding sinks_made external_sink sink_from RedisSink.with_config new_client to_connection_info
    get_job_id has_sink split_colon
sinks = (refl, (refl, (refl, tt)))

abbrev idle_manager : TaskManager
idle_manager = record { workers = [] }

get-create_example :
    (BTreeMap.get job (create_sub_dataflow host (some words) idle_manager).0.workers ≡ (
      if same job job then running (build host words) else BTreeMap.get job idle_manager.workers))
    × ((create_sub_dataflow host (some words) idle_manager).1 ≡ answer (build host words))
get-create_example = get-create host words job job idle_manager refl

abbrev busy_manager : TaskManager
busy_manager = record { workers = (job, (build_wires host words words_valid reached sinks).0) ∷ [] }

abbrev ping : Heartbeat
ping = record {
  heartbeat_id = 7;
  timestamp = none;
  node_type = 0;
  subdataflow_id = some (record { job_id = some job; sub_id = 0 });
  task_id = 2;
}

heartbeat_lost :
    BTreeMap.get job (manager_heartbeat ping busy_manager).0.workers
    ≡ BTreeMap.get job busy_manager.workers
heartbeat_lost = manager_heartbeat-idle ping job busy_manager
