-- ===== src/Profiles.antt =====
-- profiles.go: the state directory, its profiles and their settings.
pub mod Names
pub mod Config
pub mod Store
pub mod Summary
mod SavingTests
mod SummaryTests
mod Tests
