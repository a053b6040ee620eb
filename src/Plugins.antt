-- ===== src/Plugins.antt =====
-- src/plugin: finding and creating plugins.
pub mod PluginCreator
