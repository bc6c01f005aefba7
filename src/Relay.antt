-- ===== src/Relay.antt =====
-- crates/pbox-relay: which routes exist, who may use them, and how the server matches an agent with a
-- client.
pub mod Route
pub mod Token
pub mod Access
pub mod Server
