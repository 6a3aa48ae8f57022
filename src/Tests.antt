-- ===== src/Tests.antt =====
-- Runs of the definitions, and the theorems at concrete inputs.
mod Encoding
mod Samples
mod States
mod Admissions
mod Records
mod Messages
mod Publications
mod Progress
mod Cycle
mod Busy
mod Evidence
mod Memories
