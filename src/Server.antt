-- ===== src/Server.antt =====
-- server.c: the handlers of the messages that a node receives.
pub mod Defs
pub mod Register
pub mod Dispatch
pub mod Turn
pub mod Routes
pub mod Fits
pub mod Loop
pub mod Arrivals
pub mod Order
pub mod CronThread
pub mod WidthTest
unfoldable pub use Defs.*
