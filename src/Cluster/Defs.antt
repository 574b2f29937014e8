-- ===== src/Cluster/Defs.antt =====
-- Nodes, the choice of a node for an operator and the division of a dataflow.
use lightflus.Base.{
  ℕ, suc, ◌%◌, Bool, true, false, ◌||◌, Option, none, some, List, [], ◌∷◌, map, Str, if◌then◌else◌,
  ◌==◌, same, ◌++◌, keep, any, is_empty, length, get_or, and_then, map_option, nat_ord, list_ord,
}
use lightflus.Base.HashMap
use lightflus.Base.HashMap.{HashMap}
use lightflus.Proto.Ids.{HostAddr, default_host_addr, host_addr_ord, is_valid}
use lightflus.Proto.Graph.{OperatorInfo, DataflowMeta, Dataflow, default_dataflow, get_host_addr}

pub data NodeStatus : Type 0 where
  pending running unreachable : NodeStatus

-- The gateway, a client of the remote node, holds no state of the cluster and is left out.
pub record Node : Type 0 where
  pub status : NodeStatus
  pub host_addr : HostAddr
  pub node_id : ℕ

pub record Cluster : Type 0 where
  pub workers : List Node

-- Node::new
unfoldable pub new : HostAddr → Node
new addr = record { status = NodeStatus.pending; host_addr = addr; node_id = 0 }

-- Node::update_status
unfoldable pub update_status : Node → NodeStatus → Node
update_status n s = record n { status = s }

abbrev is_running : NodeStatus → Bool
is_running NodeStatus.running = true
is_running _ = false

-- Node::is_available
unfoldable pub is_available : Node → Bool
is_available n = is_running n.status

-- the first node at an address
unfoldable pub find_node : HostAddr → List Node → Option Node
find_node addr [] = none
find_node addr (n ∷ ns) = if same n.host_addr addr then some n else find_node addr ns

-- Cluster::get_node
unfoldable pub get_node : Cluster → HostAddr → Option Node
unfolding find_node
get_node c addr = find_node addr c.workers

-- the addresses of the workers that are available
unfoldable pub available : Cluster → List HostAddr
available c = map (λ n. n.host_addr) (keep is_available c.workers)

-- Cluster::partition_key. The hash of a key is what `DefaultHasher`, whose algorithm std leaves
-- open, answers for it.
unfoldable pub partition_key : (ℕ → ℕ) → Cluster → ℕ → HostAddr
partition_key hash c key =
    let workers = available c in
    if is_empty workers
    then default_host_addr
    else get_or workers (hash key % length workers) default_host_addr

-- Cluster::is_available
unfoldable pub cluster_is_available : Cluster → Bool
cluster_is_available c = any is_available c.workers

-- the body of the loop of `partition_dataflow`
unfoldable pub placed : HostAddr → OperatorInfo → OperatorInfo
placed addr info = if is_valid addr then record info { host_addr = some addr } else info

unfoldable pub place_operators : (ℕ → ℕ) → Cluster → HashMap ℕ OperatorInfo → HashMap ℕ OperatorInfo
place_operators hash c [] = []
place_operators hash c ((id, info) ∷ nodes) =
    (id, placed (partition_key hash c id) info) ∷ place_operators hash c nodes

-- Cluster::partition_dataflow
unfoldable pub partition_dataflow : (ℕ → ℕ) → Cluster → Dataflow → Dataflow
partition_dataflow hash c d = record d { nodes = place_operators hash c d.nodes }

-- `dataflow.nodes.get(&node.center).unwrap()`: `none` is the panic
unfoldable pub address_of : Dataflow → ℕ → Option HostAddr
address_of d id = map_option get_host_addr (HashMap.get id d.nodes)

-- a node goes to the end of its group, or starts one
abbrev pub append_node : Option (List DataflowMeta) → DataflowMeta → List DataflowMeta
append_node none m = m ∷ []
append_node (some nodes) m = nodes ++ m ∷ []

-- one step of the loop that groups the nodes by address
unfoldable pub push_node :
    HostAddr
    → DataflowMeta
    → HashMap HostAddr (List DataflowMeta)
    → HashMap HostAddr (List DataflowMeta)
push_node addr m group = HashMap.insert addr (append_node (HashMap.get addr group) m) group

-- the loop that groups the nodes of a dataflow by the addresses of their operators
unfoldable pub group_by_host :
    Dataflow
    → List DataflowMeta
    → HashMap HostAddr (List DataflowMeta)
    → Option (HashMap HostAddr (List DataflowMeta))
group_by_host d [] group = some group
group_by_host d (m ∷ ms) group =
    and_then (address_of d m.center) (λ addr. group_by_host d ms (push_node addr m group))

-- `meta.center == *entry.0 || meta.neighbors.contains(entry.0)`
abbrev pub wants : DataflowMeta → ℕ → Bool
wants m id = m.center == id || any (λ n. n == id) m.neighbors

-- the operators that the nodes of a group name
unfoldable pub sub_nodes :
    HashMap ℕ OperatorInfo → List DataflowMeta → HashMap ℕ OperatorInfo → HashMap ℕ OperatorInfo
sub_nodes all_nodes [] nodes = nodes
sub_nodes all_nodes (m ∷ ms) nodes =
    sub_nodes all_nodes ms (HashMap.insert_all (keep (λ e. wants m e.0) all_nodes) nodes)

-- the sub-dataflow of a group
unfoldable pub sub_dataflow : Dataflow → List DataflowMeta → Dataflow
sub_dataflow d metas = record default_dataflow {
  meta = metas;
  nodes = sub_nodes d.nodes metas [];
  job_id = d.job_id;
}

-- Cluster::split_into_subdataflow
unfoldable pub split_into_subdataflow : Dataflow → Option (HashMap HostAddr Dataflow)
split_into_subdataflow d =
    and_then (group_by_host d d.meta []) (λ group. some (HashMap.map_values (sub_dataflow d) group))

pub record NodeBuilder : Type 0 where
  pub host : Str
  pub port : ℕ

-- NodeBuilder::build
unfoldable pub node_build : NodeBuilder → Node
unfolding new
node_build b = new (record { host = b.host; port = b.port })

-- `lang::index_map` with the closure of ClusterBuilder::build
unfoldable pub index_nodes : ℕ → List NodeBuilder → List Node
unfolding node_build
index_nodes index [] = []
index_nodes index (b ∷ bs) = record (node_build b) { node_id = index } ∷ index_nodes (suc index) bs

-- ClusterBuilder::build, from the nodes of `get_nodes`
unfoldable pub build : List NodeBuilder → Cluster
unfolding index_nodes
build nodes = record { workers = index_nodes 0 nodes }
