-- ===== src/Ffi.antt =====
-- src/ffi.rs, the functions that C programs call, by parts.
pub mod Errors
pub mod Transfer
pub mod Sockets
pub mod Accept
pub mod Close
pub mod Lifecycle
pub mod Status
pub mod Config
