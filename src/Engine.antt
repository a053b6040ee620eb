-- ===== src/Engine.antt =====
-- The engine, src/engine, and its parts.
pub mod FdMonitor
pub mod DataStorage
pub mod PluginMap
pub mod Services
pub mod OnFirstUse
