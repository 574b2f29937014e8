-- ===== src/Proto/Validate/Checks.antt =====
-- The checks, in the order in which the source makes them.
use lightflus.Base.{
  ℕ, Bool, true, false, ◌||◌, Option, none, some, List, [], ◌∷◌, Result, ok, err, ◌>>◌,
  if◌then◌else◌, ltb, leb, is_none, is_empty, nat_ord,
}
use lightflus.Base.HashMap
use lightflus.Base.HashMap.{HashMap}
use lightflus.Proto.Graph.{
  DataTypeEnum, Details, Source, SourceDesc, Sink, SinkDesc, KafkaDesc, MysqlDesc, RedisDesc,
  RedisConnectionOpts, Statement, OperatorInfo, DataflowMeta, Dataflow, kafka_data_type,
}

pub data DataflowValidateError : Type 0 where
  missing_redis_connection_opts missing_redis_statement missing_resource_id : DataflowValidateError
  -- the message is made of the number of the node alone
  operator_info_missing : ℕ → DataflowValidateError
  cyclic_dataflow : DataflowValidateError
  operator_detail_missing : ℕ → DataflowValidateError
  missing_source_desc missing_sink_desc missing_redis_key_extractor : DataflowValidateError
  missing_redis_value_extractor missing_mysql_connection_opts : DataflowValidateError
  missing_mysql_statement missing_redis_host missing_redis_tls_config : DataflowValidateError
  missing_kafka_brokers missing_kafka_data_type missing_kafka_topic : DataflowValidateError

abbrev pub Checked : Type 0
Checked = Result DataflowValidateError (Unit {0})

abbrev is_unspecified : DataTypeEnum → Bool
is_unspecified DataTypeEnum.unspecified = true
is_unspecified _ = false

-- KafkaDesc::check
unfoldable pub kafka_check : KafkaDesc → Checked
kafka_check k =
    if is_empty k.brokers
    then err missing_kafka_brokers
    else if is_unspecified (kafka_data_type k)
    then err missing_kafka_data_type
    else if is_empty k.topic
    then err missing_kafka_topic
    else ok tt

abbrev statement_check : Option Statement → Checked
statement_check none = err missing_mysql_statement
statement_check (some s) = if is_empty s.statement then err missing_mysql_statement else ok tt

-- MysqlDesc::check
unfoldable pub mysql_check : MysqlDesc → Checked
mysql_check m =
    if is_none m.connection_opts
    then err missing_mysql_connection_opts
    else statement_check m.statement

abbrev redis_opts_check : Option RedisConnectionOpts → Checked
redis_opts_check none = err missing_redis_connection_opts
redis_opts_check (some o) =
    if is_empty o.host
    then err missing_redis_host
    else if o.tls
    then (if is_empty o.username || is_empty o.password
        then err missing_redis_tls_config
        else ok tt)
    else ok tt

-- RedisDesc::check
unfoldable pub redis_check : RedisDesc → Checked
redis_check r =
    if is_none r.key_extractor
    then err missing_redis_key_extractor
    else if is_none r.value_extractor
    then err missing_redis_value_extractor
    else redis_opts_check r.connection_opts

abbrev pub source_desc_check : Option SourceDesc → Checked
source_desc_check none = err missing_source_desc
source_desc_check (some (SourceDesc.kafka k)) = kafka_check k

-- Source::check
unfoldable pub source_check : Source → Checked
source_check s = source_desc_check s.desc

abbrev pub sink_desc_check : Option SinkDesc → Checked
sink_desc_check none = err missing_sink_desc
sink_desc_check (some (SinkDesc.redis r)) = redis_check r
sink_desc_check (some (SinkDesc.kafka k)) = kafka_check k
sink_desc_check (some (SinkDesc.mysql m)) = mysql_check m

-- Sink::check
unfoldable pub sink_check : Sink → Checked
sink_check s = sink_desc_check s.desc

-- the `match` on the operator's details in `check_operator`
unfoldable pub details_check : ℕ → Option Details → Checked
details_check node_id none = err (operator_detail_missing node_id)
details_check node_id (some (Details.source s)) = source_check s
details_check node_id (some (Details.sink s)) = sink_check s
details_check node_id (some _) = ok tt

unfoldable pub found_check : ℕ → Option OperatorInfo → Checked
found_check node_id none = err (operator_info_missing node_id)
found_check node_id (some operator) = details_check node_id operator.details

-- Dataflow::check_operator
unfoldable pub check_operator : Dataflow → ℕ → Checked
check_operator d node_id = found_check node_id (HashMap.get node_id d.nodes)

-- `metas.sort_by(|prev, next| prev.center.cmp(&next.center))`, which is stable
unfoldable pub insert_by_center : DataflowMeta → List DataflowMeta → List DataflowMeta
insert_by_center m [] = m ∷ []
insert_by_center m (n ∷ ns) =
    let rest = insert_by_center m ns in if leb m.center n.center then m ∷ n ∷ ns else n ∷ rest

unfoldable pub sort_by_center : List DataflowMeta → List DataflowMeta
unfolding insert_by_center
sort_by_center [] = []
sort_by_center (m ∷ ms) = insert_by_center m (sort_by_center ms)

-- the loop over the neighbors of one node
unfoldable pub check_neighbors : Dataflow → ℕ → List ℕ → Checked
check_neighbors d center [] = ok tt
check_neighbors d center (neighbor ∷ rest) =
    let next = check_operator d neighbor >> check_neighbors d center rest in
    if ltb neighbor center then err cyclic_dataflow else next

-- the loop over the nodes
unfoldable pub check_metas : Dataflow → List DataflowMeta → Checked
check_metas d [] = ok tt
check_metas d (m ∷ ms) =
    check_operator d m.center >> check_neighbors d m.center m.neighbors >> check_metas d ms

-- Dataflow::validate
unfoldable pub validate : Dataflow → Checked
validate d =
    if is_none d.job_id then err missing_resource_id else check_metas d (sort_by_center d.meta)
