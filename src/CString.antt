-- ===== src/CString.antt =====
-- C strings and the functions of the C library that the program calls on them (`strlen`, `strcmp`,
-- `memcmp`, `strcpy`, `atoi`, `%d`), with `startsWith` and `strip` of NodeInfo/node_info.c.
-- A string is the list of its bytes before the terminating NUL.
mod Defs
pub mod Decimal
pub mod Equal
pub mod Prefix
unfoldable pub use Defs.*
