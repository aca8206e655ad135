-- ===== src/Engine.antt =====
-- engine/sequence.py and engine/scheduler.py: requests and continuous batching.
pub mod Sequence
pub mod Cache
pub mod Scheduler
pub mod Drafters
pub mod Speculative
pub mod Loop
pub mod Graphs
pub mod Structured
pub mod Recurrent
