-- ===== src/Ids.antt =====
-- Identifiers of requests: snowflake/id.go and ray/id.go.
pub mod Snowflake
pub mod Ray
mod Tests
