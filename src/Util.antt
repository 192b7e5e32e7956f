-- ===== src/Util.antt =====
-- include/crisp/util and src/util.
pub mod Checksum
pub mod SArray
pub mod SharedQueue
pub mod Signal
pub mod Timer
pub mod PeriodicScheduleSlot
pub mod ScheduledAction
pub mod Scheduler
pub mod Buffer
pub mod WorkerObject
