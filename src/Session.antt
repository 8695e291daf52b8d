-- ===== src/Session.antt =====
-- session/runner.go. Message is how a runner serves a message and settles it, Schedule how the nodes
-- share a schedule, Quota how many messages a runner takes.
pub mod Message
pub mod Settling
pub mod Schedule
pub mod Holding
pub mod Turns
pub mod Quota
mod Tests
