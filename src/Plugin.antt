-- ===== src/Plugin.antt =====
-- inc and src/src: the plugin that runs the commissioner behind a REST interface.
pub mod Status
pub mod Parameters
pub mod Rest
pub mod Announce
pub mod Threads
