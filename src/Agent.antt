-- ===== src/Agent.antt =====
-- internal/agent: the agent that encodes for a worker on another machine.
pub mod Protocol
pub mod Store
pub mod Runner
pub mod Server
pub mod Events
pub mod Client
pub mod Hash
