-- ===== src/Server.antt =====
-- board/server: the poll of the store, the snapshot that it serves, and the configuration.
pub mod Config
pub mod Display
pub mod Snapshot
pub mod Freshness
pub mod Lanes
pub mod Build
pub mod Strip
pub mod Poll
pub mod Completeness
pub mod Retained
pub mod Polling
pub mod Ages
pub mod Overrides
pub mod Paths
pub mod Guard
pub mod Clients
pub mod Again
pub mod Steady
pub mod Stream
pub mod Frames
pub mod Connections
pub mod Process
pub mod Http
pub mod Run
pub mod Rows
pub mod Quiet
pub mod Origin
pub mod Pipeline
