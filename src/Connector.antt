-- ===== src/Connector.antt =====
-- The connectors of src/stream/src/connector.rs.
pub mod Message
pub mod Errors
pub mod Kafka
pub mod KafkaSink
pub mod RoundTrip
pub mod Extract
pub mod Mysql
pub mod Redis
pub mod RedisSink
pub mod Latest
pub mod Rows
pub mod Source
pub mod Sink
pub mod Termination
