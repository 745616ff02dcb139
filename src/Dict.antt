-- ===== src/Dict.antt =====
-- services/dict/dict.go: the kernel's dictionary of what is known of sessions, hosts and users.
pub mod Cleanup
pub mod Lines
pub mod Reading
pub mod Writing
pub mod Examples
