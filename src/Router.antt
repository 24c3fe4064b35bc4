-- ===== src/Router.antt =====
-- `router_refresh` of CronJob/node_cron_job.c.
mod Defs
pub mod Clock
pub mod Measure
pub mod Laws
pub mod Served
unfoldable pub use Defs.*
