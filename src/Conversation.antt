-- ===== src/Conversation.antt =====
-- The browser and the agent together, and the client and the agent of the demo.
pub mod Requests
pub mod Verdicts
pub mod Answers
pub mod Service
pub mod Serving
