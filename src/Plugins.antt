-- ===== src/Plugins.antt =====
-- packages/plugin-sdk/src: the plugin manifest, and the loader that decides which plugins run
-- and in which order.
pub mod Loader
pub mod Inventory
mod Tests
