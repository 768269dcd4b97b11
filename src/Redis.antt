-- ===== src/Redis.antt =====
-- src/TaskQueue/backends/redis_backend.py. `Interface` states what the backend relies on of Redis and
-- its driver, and `Scripts` models the Lua scripts, command by command.
pub mod Keys
pub mod View
pub mod Effect
pub mod Interface
pub mod Scripts
pub mod Backend
pub mod Effects
pub mod Reclaim
pub mod Reaper
pub mod Reap
pub mod Lease
pub mod Fleet
pub mod Notifier
pub mod Race
pub mod Waits
pub mod Tests
