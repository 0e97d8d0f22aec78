-- ===== src/Ssh.antt =====
-- The SSH server of ssh.go and ssh_windows.go.
pub mod EnvBlock
pub mod ConPty
pub mod Session
pub mod Server
mod ServerTests
mod ConPtyTests
mod SessionTests
