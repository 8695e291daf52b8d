-- ===== src/Service.antt =====
-- service/svc_app.go: the processes of an app. App is `Prepare`, Process the termination of one
-- process, Server the ticker that keeps and scales the set of them.
pub mod App
pub mod Sizes
pub mod Process
pub mod Deadline
pub mod Server
pub mod Scaling
pub mod Restoring
pub mod Builds
mod Tests
