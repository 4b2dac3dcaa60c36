-- ===== src/UnitTests.antt =====
-- The unit tests of the agent and of its events: agent/src/event_win_unittest.cc and
-- agent/src/agent_win_unittest.cc.
pub mod Events
pub mod Handlers
pub mod Agents
pub mod Clients
