-- ===== src/Tests.antt =====
-- Runs of the definitions, and the theorems at concrete inputs.
mod Samples
mod Lists
mod Tables
mod Messages
mod Servers
mod Joins
mod Routers
mod Sessions
mod Punches
mod Starts
mod Clusters
mod IpLists
mod Orders
mod Runs
