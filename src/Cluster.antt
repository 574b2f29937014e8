-- ===== src/Cluster.antt =====
-- The cluster of task managers: src/common/src/net/cluster.rs.
mod Defs
pub mod Placement
pub mod Split
pub mod Handover
pub use Defs.{NodeStatus, Node, Cluster, NodeBuilder}
unfoldable pub use Defs.{
  new, update_status, is_available, find_node, get_node, available, partition_key, placed,
  place_operators, partition_dataflow, cluster_is_available, address_of, append_node, push_node,
  group_by_host, sub_nodes, sub_dataflow, split_into_subdataflow, node_build, index_nodes, build,
}
