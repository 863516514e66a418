-- ===== src/Client.antt =====
-- client.go and client_structs.go: what the client does with symbol names.
pub mod Access
pub mod Values
pub mod Retry
pub mod Failure
pub mod Operations
pub mod Typed
pub mod Types
pub mod Structs
pub mod Subscriptions
pub mod Reconnect
