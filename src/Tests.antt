-- ===== src/Tests.antt =====
-- Runs of the model at concrete inputs.
pub mod Documents
pub mod Sessions
pub mod Configs
pub mod Drivers
pub mod Challenges
pub mod Requests
pub mod Pages
pub mod Protocols
pub mod Launches
