-- ===== src/Agent.antt =====
-- crates/pbox-agent/src: the terminal sessions that the agent in a container owns, and what a command
-- takes from the image of the container.
pub mod Modes
pub mod Keys
pub mod Sessions
pub mod Workspace
pub mod Service
