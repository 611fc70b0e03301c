-- ===== src/Limiter.antt =====
-- src/services/koios/limiters.ts: the two limiters in front of the Koios requests.
pub mod Burst
pub mod Concurrency
