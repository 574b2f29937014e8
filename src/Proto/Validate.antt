-- ===== src/Proto/Validate.antt =====
-- The checks of src/proto/src/common_impl.rs that a dataflow passes before it is deployed:
-- `Dataflow::validate` and what it calls. A check that passes answers `ok tt`.
mod Checks
mod Sorting
pub mod Soundness
pub mod Cycles
pub use Checks.{Checked, DataflowValidateError}
unfoldable pub use Checks.{
  kafka_check, mysql_check, redis_check, source_check, sink_check, details_check, found_check,
  check_operator, sort_by_center, insert_by_center, check_neighbors, check_metas, validate,
}
pub use Checks.{
  missing_redis_connection_opts, missing_resource_id, operator_info_missing, cyclic_dataflow,
  operator_detail_missing, missing_source_desc, missing_sink_desc, missing_redis_key_extractor,
  missing_redis_value_extractor, missing_mysql_connection_opts, missing_mysql_statement,
  missing_redis_host, missing_redis_tls_config, missing_kafka_brokers, missing_kafka_data_type,
  missing_kafka_topic,
}
