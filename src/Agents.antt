-- ===== src/Agents.antt =====
-- The agents: their lifecycle, the supervisors of their processes, the bus of events, the sessions and
-- the memory.
pub mod Lifecycle
pub mod Supervisor
pub mod EventBus
pub mod Sessions
pub mod MemoryStore
pub mod DistributedSupervisor
