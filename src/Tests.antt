-- ===== src/Tests.antt =====
-- Runs of the model on concrete inputs, and instances of the theorems.
mod Fixtures
mod Validate
mod Cluster
mod Types
mod Worker
mod Coordinator
mod Stream
mod Edge
mod Net
mod Runtime
mod Gateway
mod Errors
mod Collections
mod Storage
mod Values
mod Connector
mod Utils
