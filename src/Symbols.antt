-- ===== src/Symbols.antt =====
-- internal/symbols: the symbol upload, the table that caches it, and the registry of types.
pub mod Types
pub mod Parser
pub mod Table
pub mod Registry
