-- ===== src/WorkCycle.antt =====
-- The work cycle of peoplebot/work_cycle.py: its configuration, the reader progress with its store,
-- and the tick.
pub mod Progress
pub mod Update
pub mod Store
pub mod Policy
pub mod Status
pub mod Bindings
pub mod Configuration
pub mod Tick
pub mod Reconcile
