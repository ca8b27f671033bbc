-- ===== src/Tests.antt =====
-- Concrete inputs: what the definitions answer on them, and the theorems at inputs that meet their
-- hypotheses.
mod Samples
mod Queue
mod Scheduling
mod Backfilling
mod Replaying
mod Bookkeeping
mod Mailroom
mod Keys
