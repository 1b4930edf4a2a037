-- ===== src/Reliability.antt =====
-- `backend/app/modules/reliability`: the outbox and the background jobs, which one worker or several
-- work off. Both queues hand out their rows in the same way; they differ in what an attempt is and in
-- what they stamp.
pub mod Rows
pub mod Queue
pub mod Budget
pub mod Progress
pub mod Settling
pub mod Crashes
pub mod Outbox
pub mod Dedupe
pub mod Jobs
pub mod Schedule
