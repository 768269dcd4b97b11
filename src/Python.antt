-- ===== src/Python.antt =====
-- What the source uses of Python itself: the exceptions that the code raises or catches, the values
-- that cross the serializer, and the field values of a stored record.
mod Exceptions
mod Values
pub use Exceptions.*
unfoldable pub use Values.*
