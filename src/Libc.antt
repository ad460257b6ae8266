-- ===== src/Libc.antt =====
-- The C library and the C memory model, as far as the servers use them: character arrays with
-- checked access, NUL-terminated strings, character classes. A byte is a number.
mod Arrays
mod Text
mod Strings
pub mod Numbers
unfoldable pub use Arrays.*
unfoldable pub use Text.*
unfoldable pub use Numbers.*
unfoldable pub use Strings.*
pub mod Laws
pub mod Halting
