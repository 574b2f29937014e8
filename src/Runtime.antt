-- ===== src/Runtime.antt =====
-- The JavaScript runtime: src/stream/src/v8_runtime.rs.
mod Convert
pub mod Matching
mod Engine
mod Laws
pub mod Objects
pub mod Wrapping
mod Loop
pub use Convert.{V8, Kind}
unfoldable pub use Convert.{kind_of}
pub use Laws.{NameAt, IndexOf, IsObjectOf, IsStringOf, IsV8}
unfoldable pub use Laws.{set_entries, IsProper}
pub use Engine.{Context, RuntimeEngine}
unfoldable pub use Engine.{new, call_one_arg, call_two_args}
unfoldable pub use Convert.{wrap_value, set_fields, to_typed_value, insert_field}
