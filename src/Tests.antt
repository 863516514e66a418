-- ===== src/Tests.antt =====
-- Concrete inputs of the theorems, and runs of the code on them.
mod Frames
mod Commands
mod Symbols
mod Transport
mod Errors
mod Client
mod Requests
mod Reconnect
mod Subscriptions
mod Plc
mod Structs
