-- ===== src/Mlfq.antt =====
-- MLFQ/main.go and MLFQ/constants.go: a simulation of a scheduler with multilevel feedback queues.
pub mod Scheduler
pub mod Sums
pub mod Queues
pub mod Invariant
pub mod Arrivals
pub mod Io
pub mod Boost
pub mod Runs
pub mod Expiry
pub mod Ticks
pub mod Finish
pub mod Jobs
pub mod Loop
pub mod Passes
pub mod Ends
mod Tests
