-- ===== src/Types.antt =====
-- The values of a stream: `TypedValue` of src/common/src/types.rs.
mod Value
mod Codec
mod Order
mod SerdeJson
mod Json
mod Text
pub mod Arithmetic
pub mod RoundTrip
pub mod Fuel
pub mod OrderLaws
pub mod JsonLaws
pub use Value.{TypedValue, Fields, Values, get_type}
pub use Value.{
  string, big_int, boolean, number, null, object, array, invalid, end, field, nil, cons,
}
pub use Codec.{
  Formats, Decoded, decoded, panicked, out_of_fuel, map_decoded, bind, bind_assoc, bind_cong,
  to_entry,
}
unfoldable pub use Codec.{
  get_data, get_data_all, decode, decode_all, decode_with, decode_as, from_vec, from_slice,
}
unfoldable pub use Order.{typed_eq, partial_cmp, cmp}
pub use SerdeJson.{JsonNumber, JsonValue, JsonItems, JsonFields}
pub use Json.{JsonText}
unfoldable pub use Json.{to_json_value, from_json_value, from_slice_with_type, slice_as}
unfoldable pub use Text.{to_string, redis_arg}
