-- ===== src/Timer.antt =====
-- Time bases and the timers on them: osapi-timebase.c and osapi-time.c of osal/src/os/shared/src.
pub mod TimeBase
pub mod Timers
pub mod Tick
pub mod Rings
pub mod Calls
pub mod Adding
pub mod Objects
pub mod Deleting
pub mod Deleted
