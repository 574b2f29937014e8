-- ===== src/Tests/Cluster.antt =====
-- Placement and division on two workers.
use lightflus.Base.{
  ◌*◌, true, false, List, [], ◌∷◌, ◌≡◌, refl, ok, some, nat_ord, map_option, keep, In,
}
use lightflus.Base.HashMap
use lightflus.Base.HashMap.{HashMap}
use lightflus.Proto.Ids.{HostAddr, host_addr_ord, host_addr_cmp, default_host_addr, is_valid}
use lightflus.Proto.Graph.{Dataflow, get_host_addr}
use lightflus.Proto.Validate.{validate}
use lightflus.Cluster.{
  NodeStatus, Cluster, NodeBuilder, build, partition_key, partition_dataflow, available,
  cluster_is_available, is_available, split_into_subdataflow, sub_dataflow, address_of,
  place_operators, placed,
}
use lightflus.Cluster.Split.{get-split, split_total, whole, lives_at}
use lightflus.Cluster.Handover.{split-validate}
use lightflus.Cluster.Placement.{
  partition_key_lem, get-partition_dataflow, validate-partition, build-partition,
}
use lightflus.Tests.Fixtures.{words, left, right, bytes, metas}
use lightflus.Tests.Validate.{words_valid}

abbrev pub pair : Cluster
pair = record {
  workers =
      record { status = NodeStatus.running; host_addr = left; node_id = 0 }
      ∷ record { status = NodeStatus.pending; host_addr = right; node_id = 1 }
      ∷ [];
}

abbrev halves : HashMap HostAddr Dataflow
halves = (split_total words words_valid).0

words_split : split_into_subdataflow words ≡ some halves
words_split = (split_total words words_valid).1

split_total_example :
    (subs : HashMap HostAddr Dataflow) × (split_into_subdataflow words ≡ some subs)
split_total_example = split_total words words_valid

get-split_example : HashMap.get left halves ≡ whole words (keep (lives_at words left) metas)
get-split_example = get-split words halves left words_split

left_half :
    HashMap.get left halves
    ≡ some (
        sub_dataflow words
          (record { center = 1; neighbors = 2 ∷ [] } ∷ record { center = 3; neighbors = [] } ∷ []))
unfolding whole address_of HashMap.get host_addr_cmp get_host_addr
left_half = get-split words halves left words_split

split-validate_example :
    validate (
      sub_dataflow words
        (record { center = 1; neighbors = 2 ∷ [] } ∷ record { center = 3; neighbors = [] } ∷ []))
    ≡ ok tt
unfolding HashMap.get
split-validate_example =
    split-validate words halves left _ (refl, (refl, (refl, tt))) words_valid words_split left_half

partition_key_lem_example :
    (cluster_is_available pair ≡ true → In (partition_key (λ k. k * 7) pair 3) (available pair))
    × (cluster_is_available pair ≡ false
        → (partition_key (λ k. k * 7) pair 3 ≡ default_host_addr)
          × (is_valid (partition_key (λ k. k * 7) pair 3) ≡ false))
partition_key_lem_example = partition_key_lem (λ k. k * 7) pair 3

get-partition_dataflow_example :
    HashMap.get 2 (partition_dataflow (λ k. k * 7) pair words).nodes
    ≡ map_option (placed (partition_key (λ k. k * 7) pair 2)) (HashMap.get 2 words.nodes)
get-partition_dataflow_example = get-partition_dataflow (λ k. k * 7) pair words 2

moved_left :
    map_option get_host_addr (HashMap.get 2 (partition_dataflow (λ k. k * 7) pair words).nodes)
    ≡ some left
unfolding HashMap.get partition_dataflow place_operators placed partition_key available is_available
    is_valid get_host_addr
moved_left = refl

validate-partition_example : validate (partition_dataflow (λ k. k * 7) pair words) ≡ validate words
validate-partition_example = validate-partition (λ k. k * 7) pair words

abbrev configured : List NodeBuilder
configured = record { host = bytes "left"; port = 8792 } ∷ []

build-partition_example :
    (cluster_is_available (build configured) ≡ false)
    × (partition_dataflow (λ k. k * 7) (build configured) words ≡ words)
build-partition_example = build-partition (λ k. k * 7) configured words
