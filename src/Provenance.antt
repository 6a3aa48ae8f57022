-- ===== src/Provenance.antt =====
-- peoplebot/provenance.py: evidence of admitted Executions in Git. `Plumbing` has the objects that
-- GitAttemptStore writes, `Refs` its reference transactions.
pub mod Plumbing
pub mod Refs
pub mod Attempt
pub mod Evidence
pub mod Run
