-- ===== src/Congestion.antt =====
-- internal/congestion: what the bandwidth estimate of a lane rests on.
pub mod MinMax
