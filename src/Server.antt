-- ===== src/Server.antt =====
-- cmd/otelstore/main.go: the configuration, the start of the servers, what they then handle, the
-- retention sweep and the shutdown. The parsing of the flags, the sockets and the signals are not
-- modelled.
pub mod Config
pub mod Sweep
pub mod Start
pub mod Exposed
pub mod Started
pub mod System
pub mod Handled
pub mod Shutdown
pub mod Safety
pub mod Denied
pub mod Retained
pub mod Acknowledged
pub mod Visible
pub mod Schedule
pub mod Concurrent
pub mod Guarded
pub mod Sweeping
