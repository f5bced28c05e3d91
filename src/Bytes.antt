-- ===== src/Bytes.antt =====
-- include/xboxtls/types.h, error.h and endian.h: bytes, spans of bytes, error codes and the
-- big-endian loads and stores. A byte is a number, `IsByte` its range; a buffer is the list of
-- its bytes. A result pointer of the source is a returned value here, so a null check of one has
-- no counterpart; what a failing call has written through one is not returned.
pub mod Span
pub mod Errors
pub mod Endian
pub mod Fields
pub mod Compare
pub mod Outcome
pub use Span.*
pub use Errors.*
pub use Outcome.*
unfoldable pub use Endian.*
unfoldable pub use Fields.*
unfoldable pub use Compare.*
