-- ===== src/Gateway.antt =====
-- The gateway service: unica/gateway/internal.
pub mod Dedup
pub mod RateLimit
pub mod Stream
