-- ===== src/Proto.antt =====
-- The protocol between the API, the coordinator and the task managers.
pub mod Ids
pub mod Graph
pub mod Event
pub mod Validate
