-- ===== src/Proto/Validate/Soundness.antt =====
-- `Dataflow::validate` (src/proto/src/common_impl.rs) against a description of the dataflows that
-- can be deployed.
use lightflus.Base.{
  ℕ, ◌≤◌, true, Option, none, some, List, [], ◌∷◌, ◌≡◌, ◌≢◌, ◌↔◌, ok, All, arith, is_some, refl,
  nat_ord, sym, subst,
}
use lightflus.Base.HashMap
use mathlib.Core.Option.{some-injective}
use lightflus.Proto.Graph.{
  DataTypeEnum, Details, SourceDesc, SinkDesc, KafkaDesc, MysqlDesc, RedisDesc, RedisConnectionOpts,
  MysqlConnectionOpts, Func, Statement, OperatorInfo, DataflowMeta, Dataflow, kafka_data_type,
}
use lightflus.Proto.Validate.Checks.{
  kafka_check, mysql_check, redis_check, source_check, sink_check, details_check, check_operator,
  check_neighbors, check_metas, source_desc_check, sink_desc_check, found_check, sort_by_center,
  validate,
}
use lightflus.Proto.Validate.Sorting.{All-sort, sort-All}

-- A Kafka connector names its brokers, the type of its data and its topic.
pub record KafkaReady (k : KafkaDesc) : Type 0 where
  pub brokers : k.brokers ≢ []
  pub typed : kafka_data_type k ≢ DataTypeEnum.unspecified
  pub topic : k.topic ≢ []

-- A MySQL sink has a connection and a statement that is not empty.
abbrev pub MysqlReady : MysqlDesc → Type 0
MysqlReady m =
    ((o : MysqlConnectionOpts) × (m.connection_opts ≡ some o))
    × ((s : Statement) × (m.statement ≡ some s) × (s.statement ≢ []))

-- A Redis sink has both extractors and a host, and under TLS a user and a password.
abbrev pub RedisReady : RedisDesc → Type 0
RedisReady r =
    ((f : Func) × (r.key_extractor ≡ some f))
    × ((f : Func) × (r.value_extractor ≡ some f))
    × ((o : RedisConnectionOpts) × (r.connection_opts ≡ some o)
        × (o.host ≢ [])
        × (o.tls ≡ true → (o.username ≢ []) × (o.password ≢ [])))

abbrev pub SourceReady : Option SourceDesc → Type 0
SourceReady none = ⊥
SourceReady (some (SourceDesc.kafka k)) = KafkaReady k

abbrev pub SinkReady : Option SinkDesc → Type 0
SinkReady none = ⊥
SinkReady (some (SinkDesc.kafka k)) = KafkaReady k
SinkReady (some (SinkDesc.mysql m)) = MysqlReady m
SinkReady (some (SinkDesc.redis r)) = RedisReady r

abbrev pub DetailsReady : Option Details → Type 0
DetailsReady none = ⊥
DetailsReady (some (Details.source s)) = SourceReady s.desc
DetailsReady (some (Details.sink s)) = SinkReady s.desc
DetailsReady (some _) = Unit

-- The operator of a node is there, and its connector is configured.
abbrev pub OperatorReady : Dataflow → ℕ → Type 0
OperatorReady d n =
    (info : OperatorInfo) × (HashMap.get n d.nodes ≡ some info) × DetailsReady info.details

-- No edge of the node leads to a smaller number, and all its operators are ready.
abbrev pub NodeReady : Dataflow → DataflowMeta → Type 0
NodeReady d m = OperatorReady d m.center × All (λ n. (m.center ≤ n) × OperatorReady d n) m.neighbors

abbrev pub IsDeployable : Dataflow → Type 0
IsDeployable d = (is_some d.job_id ≡ true) × All (NodeReady d) d.meta

pub kafka_check_iff : (k : KafkaDesc) → (kafka_check k ≡ ok tt) ↔ KafkaReady k
unfolding kafka_check
kafka_check_iff k = (λ h. ground arith, λ h. ground arith)

pub mysql_check_iff : (m : MysqlDesc) → (mysql_check m ≡ ok tt) ↔ MysqlReady m
unfolding mysql_check
mysql_check_iff m = (λ h. ground arith, λ h. ground arith)

pub redis_check_iff : (r : RedisDesc) → (redis_check r ≡ ok tt) ↔ RedisReady r
unfolding redis_check
redis_check_iff r = (λ h. ground arith, λ h. ground arith)

source_desc_iff : (o : Option SourceDesc) → (source_desc_check o ≡ ok tt) ↔ SourceReady o
source_desc_iff none = (λ h. cc, λ h. absurd h)
source_desc_iff (some (SourceDesc.kafka k)) = kafka_check_iff k

sink_desc_iff : (o : Option SinkDesc) → (sink_desc_check o ≡ ok tt) ↔ SinkReady o
sink_desc_iff none = (λ h. cc, λ h. absurd h)
sink_desc_iff (some (SinkDesc.kafka k)) = kafka_check_iff k
sink_desc_iff (some (SinkDesc.mysql m)) = mysql_check_iff m
sink_desc_iff (some (SinkDesc.redis r)) = redis_check_iff r

details_check_iff : (n : ℕ) (o : Option Details) → (details_check n o ≡ ok tt) ↔ DetailsReady o
unfolding details_check source_check sink_check
details_check_iff n none = (λ h. cc, λ h. absurd h)
details_check_iff n (some (Details.source s)) = source_desc_iff s.desc
details_check_iff n (some (Details.sink s)) = sink_desc_iff s.desc
details_check_iff n (some _) = (λ h. tt, λ h. refl)

found_check_iff :
    (n : ℕ) (o : Option OperatorInfo)
    → (found_check n o ≡ ok tt)
      ↔ ((info : OperatorInfo) × (o ≡ some info) × DetailsReady info.details)
unfolding found_check
found_check_iff n none = (λ h. cc, λ h. cc (h.1))
found_check_iff n (some info) = (
  λ h. (info, refl, (details_check_iff n info.details).0 h),
  λ h.
      (details_check_iff n info.details).1
        (subst (λ (i : OperatorInfo). DetailsReady i.details) (some-injective _ _ (sym h.1)) h.2),
)

pub check_operator_iff : (d : Dataflow) (n : ℕ) → (check_operator d n ≡ ok tt) ↔ OperatorReady d n
unfolding check_operator
check_operator_iff d n = found_check_iff n (HashMap.get n d.nodes)

check_neighbors_iff :
    (d : Dataflow) (center : ℕ) (ns : List ℕ)
    → (check_neighbors d center ns ≡ ok tt) ↔ All (λ n. (center ≤ n) × OperatorReady d n) ns
unfolding check_neighbors
check_neighbors_iff d center [] = (λ h. tt, λ h. refl)
check_neighbors_iff d center (n ∷ ns) =
    let (here, back) = check_operator_iff d n in
    let (rest, rest_back) = check_neighbors_iff d center ns in
    (λ h. ground (arith, here, rest), λ h. ground (arith, back h.0.1, rest_back h.1))

check_metas_iff :
    (d : Dataflow) (ms : List DataflowMeta) → (check_metas d ms ≡ ok tt) ↔ All (NodeReady d) ms
unfolding check_metas
check_metas_iff d [] = (λ h. tt, λ h. refl)
check_metas_iff d (m ∷ ms) =
    let (here, back) = check_operator_iff d m.center in
    let (near, near_back) = check_neighbors_iff d m.center m.neighbors in
    let (rest, rest_back) = check_metas_iff d ms in
    (
      λ h. ground (arith, here, near, rest),
      λ h. ground (arith, back h.0.0, near_back h.0.1, rest_back h.1),
    )

-- `validate` accepts exactly the deployable dataflows: those with a job id, each of whose nodes
-- has a ready operator, leads to no smaller number and leads to ready operators only.
pub validate_iff : (d : Dataflow) → (validate d ≡ ok tt) ↔ IsDeployable d
unfolding validate
validate_iff d =
    let (to, from) = check_metas_iff d (sort_by_center d.meta) in
    (
      λ h. ground (arith, sort-All (NodeReady d) d.meta, to),
      λ h. ground (arith, All-sort (NodeReady d) d.meta h.1, from),
    )
