-- ===== src/Logs.antt =====
-- The log: the in-memory sink of logsink.go and the viewer of ui_logs.go that follows it.
pub mod Sink
pub mod Viewer
mod Tests
mod ViewerTests
