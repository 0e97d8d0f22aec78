-- ===== src/Ui.antt =====
-- The main window of ui.go.
pub mod Peers
pub mod Window
pub mod Refresh
mod Tests
mod RefreshTests
mod ButtonTests
pub mod States
pub mod ProfileManager
pub mod Settings
pub mod ExitNodes
pub mod Buttons
pub mod Refreshing
