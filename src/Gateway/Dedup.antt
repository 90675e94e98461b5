-- ===== src/Gateway/Dedup.antt =====
-- unica/gateway/internal/dedup: duplicates, retries and dead letters of inbound messages.
pub mod Seen
pub mod Retry
