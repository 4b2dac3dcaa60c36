-- ===== src/Demo.antt =====
-- The demonstration agent and client of demo/.
pub mod RequestQueue
pub mod Workers
pub mod Handler
pub mod Delay
pub mod Dump
pub mod Severity
pub mod Grouping
pub mod CommandLine
pub mod Requests
pub mod Output
pub mod Analysis
pub mod Callbacks
pub mod Serving
pub mod Session
