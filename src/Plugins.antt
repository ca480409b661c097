-- ===== src/Plugins.antt =====
-- internal/pluginruntime: the host's side of the plugins. An `*entry` is a number, its pointer.
pub mod Entry
pub mod Names
pub mod Commands
pub mod Events
pub mod Lifecycle
pub mod Scheduler
pub mod Context
