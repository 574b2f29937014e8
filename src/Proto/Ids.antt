-- ===== src/Proto/Ids.antt =====
-- Identifiers, addresses and control messages: the messages of proto/common/common.proto as
-- src/proto/src/common.rs declares them. A string is its UTF-8 bytes; an `enumeration` field is
-- the number on the wire.
use lightflus.Base.Word.{decimal}
use lightflus.Base.{ℕ, Bool, Option, none, [], ◌∷◌, ◌++◌, ◌≡◌, ◌↔◌, ap, Ordering, ◌&&◌, not, ltb}
use lightflus.Base.{
  Str, Ord, nat_ord, list_ord, option_ord, then_cmp, then_cmp_both, if◌then◌else◌, ◌==◌, arith,
  is_empty,
}
use lightflus.Base.HashMap.{HashMap}

pub record ResourceId : Type 0 where
  pub resource_id : Str
  pub namespace_id : Str

pub record HostAddr : Type 0 where
  pub host : Str
  pub port : ℕ

pub record SubDataflowId : Type 0 where
  pub job_id : Option ResourceId
  pub sub_id : ℕ

-- Default::default() of the messages
abbrev pub default_resource_id : ResourceId
default_resource_id = record { resource_id = []; namespace_id = [] }

abbrev pub default_host_addr : HostAddr
default_host_addr = record { host = []; port = 0 }

abbrev pub default_sub_dataflow_id : SubDataflowId
default_sub_dataflow_id = record { job_id = none; sub_id = 0 }

-- the derived `Ord` of ResourceId compares the fields in their order
unfoldable pub resource_id_cmp : ResourceId → ResourceId → Ordering
resource_id_cmp a b =
    then_cmp (list_ord.cmp a.resource_id b.resource_id) (list_ord.cmp a.namespace_id b.namespace_id)

pub resource_id_cmp_iff : (a b : ResourceId) → (resource_id_cmp a b ≡ Ordering.eq) ↔ (a ≡ b)
unfolding resource_id_cmp
resource_id_cmp_iff a b =
    let (to, from) =
      then_cmp_both (list_ord.cmp_iff a.resource_id b.resource_id)
        (list_ord.cmp_iff a.namespace_id b.namespace_id) in
    (
      λ h. let e = to h in ground arith,
      λ e.
          from
            (ap (λ (r : ResourceId). r.resource_id) e, ap (λ (r : ResourceId). r.namespace_id) e),
    )

instance abbrev pub resource_id_ord : Ord ResourceId
resource_id_ord = record { cmp = resource_id_cmp; cmp_iff = resource_id_cmp_iff }

-- HostAddr has only equality in the source; the order is that of its fields
unfoldable pub host_addr_cmp : HostAddr → HostAddr → Ordering
host_addr_cmp a b = then_cmp (list_ord.cmp a.host b.host) (nat_ord.cmp a.port b.port)

pub host_addr_cmp_iff : (a b : HostAddr) → (host_addr_cmp a b ≡ Ordering.eq) ↔ (a ≡ b)
unfolding host_addr_cmp
host_addr_cmp_iff a b =
    let (to, from) =
      then_cmp_both (list_ord.cmp_iff a.host b.host) (nat_ord.cmp_iff a.port b.port) in
    (
      λ h. let e = to h in ground arith,
      λ e. from (ap (λ (r : HostAddr). r.host) e, ap (λ (r : HostAddr). r.port) e),
    )

instance abbrev pub host_addr_ord : Ord HostAddr
host_addr_ord = record { cmp = host_addr_cmp; cmp_iff = host_addr_cmp_iff }

-- impl Ord for SubDataflowId
unfoldable pub sub_dataflow_id_cmp : SubDataflowId → SubDataflowId → Ordering
sub_dataflow_id_cmp a b =
    let job_id_order = option_ord.cmp a.job_id b.job_id in
    let sub_id_order = nat_ord.cmp a.sub_id b.sub_id in then_cmp job_id_order sub_id_order

pub sub_dataflow_id_cmp_iff :
    (a b : SubDataflowId) → (sub_dataflow_id_cmp a b ≡ Ordering.eq) ↔ (a ≡ b)
unfolding sub_dataflow_id_cmp
sub_dataflow_id_cmp_iff a b =
    let (to, from) =
      then_cmp_both (option_ord.cmp_iff a.job_id b.job_id) (nat_ord.cmp_iff a.sub_id b.sub_id) in
    (
      λ h. let e = to h in ground arith,
      λ e. from (ap (λ (r : SubDataflowId). r.job_id) e, ap (λ (r : SubDataflowId). r.sub_id) e),
    )

instance abbrev pub sub_dataflow_id_ord : Ord SubDataflowId
sub_dataflow_id_ord = record { cmp = sub_dataflow_id_cmp; cmp_iff = sub_dataflow_id_cmp_iff }

pub data NodeType : Type 0 where
  job_manager task_worker : NodeType

-- i32 → NodeType, with the default for a number that names no variant
unfoldable pub to_node_type : ℕ → NodeType
to_node_type n = if n == 1 then task_worker else job_manager

pub data ExecutorStatus : Type 0 where
  initialized running terminating terminated : ExecutorStatus

pub record ExecutorInfo : Type 0 where
  pub executor_id : ℕ
  pub status : ExecutorStatus

pub data DataflowStatus : Type 0 where
  initialized running closing closed : DataflowStatus

pub record SubdataflowInfo : Type 0 where
  pub execution_id : Option SubDataflowId
  pub executors_info : HashMap ℕ ExecutorInfo

-- prost_types::Timestamp, its signed fields as their bit patterns
pub record Timestamp : Type 0 where
  pub seconds : ℕ
  pub nanos : ℕ

pub record Heartbeat : Type 0 where
  pub heartbeat_id : ℕ
  pub timestamp : Option Timestamp
  pub node_type : ℕ
  pub subdataflow_id : Option SubDataflowId
  pub task_id : ℕ

pub record Ack : Type 0 where
  pub request_id : Option ℕ
  pub timestamp : Option Timestamp
  pub ack_type : ℕ
  pub node_type : ℕ
  pub execution_id : Option SubDataflowId

-- HostAddr::is_valid
unfoldable pub is_valid : HostAddr → Bool
is_valid a = not (is_empty a.host) && ltb 0 a.port

-- HostAddr::as_uri; a port has at most ten digits
unfoldable pub as_uri : HostAddr → Str
as_uri a = (104 ∷ 116 ∷ 116 ∷ 112 ∷ 58 ∷ 47 ∷ 47 ∷ []) ++ (a.host ++ (58 ∷ decimal 10 a.port))
