-- ===== src/Memory.antt =====
-- The bytes that pointers point to, and `struct iovec`. A pointer is its address; the null
-- pointer is 0.
mod Defs
mod Laws
unfoldable pub use Defs.*
pub use Laws.*
