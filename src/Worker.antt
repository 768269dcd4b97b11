-- ===== src/Worker.antt =====
-- src/TaskQueue/worker.py: the settings check, one job's run, one round of the worker loop, and the
-- pool with its upkeep. What the event loop decides (who finishes first, a shutdown at an await) is an
-- argument.
pub mod Liveness
pub mod Run
pub mod Loop
pub mod Pool
pub mod InMemory
pub mod OverRedis
pub mod Shutdown
mod Tests
