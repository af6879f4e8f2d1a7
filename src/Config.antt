-- ===== src/Config.antt =====
-- include/config.hpp: the settings and the command line.
pub mod Settings
pub mod Parse
pub mod Affinity
pub mod Checks
mod Tests
