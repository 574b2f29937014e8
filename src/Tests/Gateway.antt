-- ===== src/Tests/Gateway.antt =====
-- Gateways over a network that counts the calls, and answers them with their timeouts.
use lightflus.Base.{ℕ, ◌+◌, Option, true, false, none, some, List, [], ◌∷◌, Str, ok, ◌≡◌, refl}
use lightflus.Proto.Ids.{as_uri, HostAddr, ResourceId}
use lightflus.Gateway.{RpcApi, calls}
use lightflus.Gateway.TaskManager
use lightflus.Gateway.TaskManager.{SafeTaskManagerRpcGateway, with_timeout, close}
use lightflus.Gateway.Coordinator
use lightflus.Gateway.Calls.{
  at_end, task_manager_timeout, coordinator_timeout, run-with_timeout, run-new, answers,
}

-- a client is what it was made with; only the calls of one that is not connected are answered
abbrev counting : {Q : Type 0} → RpcApi (Str × ℕ) Q (Option ℕ) (Str × ℕ) ℕ
counting = record {
  parses = λ uri. true;
  connect_lazy = λ uri timeout. (uri, timeout);
  connect = λ uri timeout n. (none, n + 1);
  call = λ client q timeout n. (ok timeout, n + 1);
}

-- h:80
abbrev host : HostAddr
host = record { host = 104 ∷ []; port = 80 }

abbrev job : ResourceId
job = record { resource_id = 106 ∷ []; namespace_id = [] }

abbrev two_requests : List TaskManager.Request
two_requests = TaskManager.stopped_job job ∷ TaskManager.job_states job ∷ []

run-with_timeout_example :
    (g : SafeTaskManagerRpcGateway (Str × ℕ)) × (with_timeout counting host 5 9 ≡ some g)
    × (TaskManager.run counting two_requests g 0
        ≡ some (
            at_end counting g
              (calls counting (task_manager_timeout 9) (as_uri host, 5) two_requests 0)))
    × (TaskManager.run counting two_requests (close counting g) 0
        ≡ some (
            at_end counting
              (close counting g)
              (calls counting (task_manager_timeout 9) (as_uri host, 5) two_requests 0)))
run-with_timeout_example = run-with_timeout counting host 5 9 two_requests 0 refl

abbrev end_job : List Coordinator.Request
end_job = Coordinator.ended_job job ∷ []

run-new_example :
    answers counting (
      Coordinator.run counting end_job
        (Coordinator.new counting host 0).0
        (Coordinator.new counting host 0).1)
    ≡ some (calls counting coordinator_timeout (as_uri host, 3) end_job 1)
run-new_example = run-new counting host end_job 0

-- the same network, where no address parses
abbrev unparsed : {Q : Type 0} → RpcApi (Str × ℕ) Q (Option ℕ) (Str × ℕ) ℕ
unparsed = record counting { parses = λ uri. false }

no_answer :
    answers unparsed (
      Coordinator.run unparsed end_job
        (Coordinator.new unparsed host 0).0
        (Coordinator.new unparsed host 0).1)
    ≡ none
no_answer = run-new unparsed host end_job 0

-- "http://h:80"
uri : as_uri host ≡ 104 ∷ 116 ∷ 116 ∷ 112 ∷ 58 ∷ 47 ∷ 47 ∷ 104 ∷ 58 ∷ 56 ∷ 48 ∷ []
unfolding as_uri
uri = refl
