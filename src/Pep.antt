-- ===== src/Pep.antt =====
-- internal/pep: the flow machinery of the proxy.
pub mod AckTracker
pub mod RecordLimiter
pub mod ReceivedRanges
pub mod FlowScheduler
