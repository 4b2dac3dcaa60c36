-- ===== src/Tests.antt =====
-- Runs of the model, and the theorems at concrete inputs.
pub mod Fake
mod Events
mod Connections
mod Agents
mod Messages
mod UnitTests
mod Handles
mod Demos
mod Threads
mod Documents
mod Conversations
mod Programs
