-- ===== src/Examples.antt =====
-- The theorems at concrete inputs.
mod Brokers
mod Stations
mod Clients
mod Relays
mod Hubs
mod Gauges
mod Syncs
