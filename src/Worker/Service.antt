-- ===== src/Worker/Service.antt =====
-- What a worker does with a message, and the handlers of the task manager: TaskWorker of
-- src/lightflus-core/src/taskmanager/taskworker.rs, the sending of Task in src/stream/src/task.rs,
-- and src/lightflus-core/src/taskmanager/rpc.rs.
use lightflus.Base.{
  ℕ, Option, none, some, List, map, Str, Result, ok, err, and_then, map_option, nat_ord,
}
use lightflus.Base.HashMap
use lightflus.Base.HashMap.{HashMap, map_values}
use lightflus.Base.BTreeMap
use lightflus.Base.BTreeMap.{BTreeMap}
use lightflus.Proto.Ids.{
  ResourceId, resource_id_ord, Heartbeat, NodeType, to_node_type, DataflowStatus, SubdataflowInfo,
}
use lightflus.Proto.Graph.{Dataflow}
use lightflus.Proto.Event.{KeyedDataEvent, KeyedEventSet, LocalEvent, keyed_data_stream_event}
use lightflus.Worker.Defs.{Host, Task, OutEdge, receive_heartbeat}
use lightflus.Worker.Build.{TaskWorker, TaskWorkerError, event_send_failure, build}

-- What a handler writes to an edge: `write`, or `batch_write` with its arguments.
pub data Write : Type 0 where
  write : OutEdge → LocalEvent → Write
  batch_write : OutEdge → Option ResourceId → ℕ → ℕ → List LocalEvent → Write

pub data SendEventToOperatorStatusEnum : Type 0 where
  dispatching done failure : SendEventToOperatorStatusEnum

-- the answer for a write, whose error text is kept
abbrev sent : Result Str (Unit {0}) → Result TaskWorkerError SendEventToOperatorStatusEnum
sent (ok _) = ok done
sent (err text) = err (event_send_failure text)

-- The channels and the remote workers are not under this program's control: `deliver` tells how a
-- write ends. A handler answers with the write it makes, if any.
module _ (deliver : Write → Result Str (Unit {0})) where
  abbrev written :
      Option Write → Option Write × Result TaskWorkerError SendEventToOperatorStatusEnum
  written none = (none, ok done)
  written (some w) = (some w, sent (deliver w))

  -- TaskWorker::send_event_to_operator, with Task::send_event_to_operator
  unfoldable pub send_event_to_operator :
      TaskWorker
      → KeyedDataEvent
      → Option Write × Result TaskWorkerError SendEventToOperatorStatusEnum
  send_event_to_operator worker event = written (
      and_then (HashMap.get event.to_operator_id worker.tasks)
        (λ task. map_option (λ edge. write edge (keyed_data_stream_event event)) task.in_edge))

  -- TaskWorker::batch_send_event_to_operator, with Task::batch_send_event_to_operator
  unfoldable pub batch_send_event_to_operator :
      TaskWorker
      → KeyedEventSet
      → Option Write × Result TaskWorkerError SendEventToOperatorStatusEnum
  batch_send_event_to_operator worker event_set = written (
      and_then (HashMap.get event_set.to_operator_id worker.tasks) (λ task.
        map_option
          (λ edge.
            batch_write edge event_set.job_id event_set.to_operator_id event_set.from_operator_id
              (map keyed_data_stream_event event_set.events))
          task.in_edge))

abbrev pub update_task : Heartbeat → Option Task → TaskWorker → TaskWorker
update_task heartbeat none worker = worker
update_task heartbeat (some task) worker = record worker {
  tasks = HashMap.insert heartbeat.task_id (receive_heartbeat heartbeat task) worker.tasks;
}

abbrev pub from_node : NodeType → Heartbeat → TaskWorker → TaskWorker
from_node NodeType.job_manager heartbeat worker =
    update_task heartbeat (HashMap.get heartbeat.task_id worker.tasks) worker
from_node NodeType.task_worker heartbeat worker = worker

-- TaskWorker::receive_heartbeat
unfoldable pub worker_heartbeat : Heartbeat → TaskWorker → TaskWorker
worker_heartbeat heartbeat worker = from_node (to_node_type heartbeat.node_type) heartbeat worker

-- TaskWorker::get_state, with Task::get_state
unfoldable pub get_state : TaskWorker → SubdataflowInfo
get_state worker = record {
  execution_id = some worker.subdataflow_id;
  executors_info = map_values (λ (task : Task). task.states) worker.tasks;
}

pub record TaskManager : Type 0 where
  pub workers : BTreeMap ResourceId TaskWorker

-- the statuses that the handlers answer with, by what they are made from
pub data Status : Type 0 where
  no_found_worker resource_id_unprovided execution_id_unprovided : Status
  worker_error : TaskWorkerError → Status

abbrev pub remove_worker : Option ResourceId → TaskManager → TaskManager
remove_worker none manager = manager
remove_worker (some job_id) manager = record manager {
  workers = BTreeMap.remove job_id manager.workers;
}

abbrev insert_worker : Option ResourceId → TaskWorker → TaskManager → TaskManager
insert_worker none worker manager = manager
insert_worker (some job_id) worker manager = record manager {
  workers = BTreeMap.insert job_id worker manager.workers;
}

-- The manager after a build and the answer, which is `none` where the build panics.
abbrev pub install :
    Option ResourceId
    → TaskManager
    → Option (Result TaskWorkerError TaskWorker)
    → TaskManager × Option (Result Status DataflowStatus)
install job_id manager none = (manager, none)
install job_id manager (some (err e)) = (manager, some (err (worker_error e)))
install job_id manager (some (ok worker)) =
    (insert_worker job_id worker manager, some (ok DataflowStatus.initialized))

-- TaskManagerApi::create_sub_dataflow, for the dataflow of the request
unfoldable pub create_sub_dataflow :
    Host → Option Dataflow → TaskManager → TaskManager × Option (Result Status DataflowStatus)
create_sub_dataflow host none manager = (manager, some (err resource_id_unprovided))
create_sub_dataflow host (some d) manager =
    install d.job_id (remove_worker d.job_id manager) (build host d)

-- TaskManagerApi::stop_dataflow
unfoldable pub stop_dataflow : ResourceId → TaskManager → TaskManager
stop_dataflow job_id manager = remove_worker (some job_id) manager

abbrev pub beat : Heartbeat → ResourceId → Option TaskWorker → TaskManager → TaskManager
beat heartbeat job_id none manager = manager
beat heartbeat job_id (some worker) manager = record manager {
  workers = BTreeMap.insert job_id (worker_heartbeat heartbeat worker) manager.workers;
}

abbrev pub beat_job :
    Heartbeat → Option ResourceId → TaskManager → TaskManager × Result Status (Unit {0})
beat_job heartbeat none manager = (manager, err execution_id_unprovided)
beat_job heartbeat (some job_id) manager =
    (beat heartbeat job_id (BTreeMap.get job_id manager.workers) manager, ok tt)

-- TaskManagerApi::receive_heartbeat
unfoldable pub manager_heartbeat : Heartbeat → TaskManager → TaskManager × Result Status (Unit {0})
manager_heartbeat heartbeat manager =
    beat_job heartbeat (and_then heartbeat.subdataflow_id (λ id. id.job_id)) manager

-- TaskManagerApi::get_sub_dataflow
unfoldable pub get_sub_dataflow : ResourceId → TaskManager → Result Status SubdataflowInfo
get_sub_dataflow job_id manager = elim (BTreeMap.get job_id manager.workers) [
  | none ↦ err no_found_worker
  | some worker ↦ ok (get_state worker)
]

module _ (deliver : Write → Result Str (Unit {0})) where
  abbrev with_status {ℓ} :
      {A : Type ℓ} → Option Write × Result TaskWorkerError A → Option Write × Result Status A
  with_status (w, ok a) = (w, ok a)
  with_status (w, err e) = (w, err (worker_error e))

  -- TaskManagerApi::send_event_to_operator
  unfoldable pub manager_send :
      KeyedDataEvent → TaskManager → Option Write × Result Status SendEventToOperatorStatusEnum
  manager_send event manager =
      elim (and_then event.job_id (λ id. BTreeMap.get id manager.workers)) [
        | none ↦ (none, err no_found_worker)
        | some worker ↦ with_status (send_event_to_operator deliver worker event)
      ]

  -- TaskManagerApi::batch_send_events_to_operator
  unfoldable pub manager_batch_send :
      KeyedEventSet → TaskManager → Option Write × Result Status SendEventToOperatorStatusEnum
  manager_batch_send event_set manager =
      elim (and_then event_set.job_id (λ id. BTreeMap.get id manager.workers)) [
        | none ↦ (none, ok done)
        | some worker ↦ with_status (batch_send_event_to_operator deliver worker event_set)
      ]
