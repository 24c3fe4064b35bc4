-- ===== src/Message.antt =====
-- Util/message.c and Util/message.h: messages over sockets.
mod Defs
pub mod Bytes
pub mod Transfer
pub mod WidthTest
unfoldable pub use Defs.*
