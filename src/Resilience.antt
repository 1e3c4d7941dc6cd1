-- ===== src/Resilience.antt =====
-- Protection of calls that may fail: the circuit breaker and the retry policy.
pub mod CircuitBreaker
pub mod Retry
