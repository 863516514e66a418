-- ===== src/Transport.antt =====
-- internal/transport/conn.go: the connection, with its calls, its two loops and its closers.
pub mod Conn
pub mod Threads
pub mod World
