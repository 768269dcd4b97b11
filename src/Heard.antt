-- ===== src/Heard.antt =====
-- src/TaskQueue/worker.py and src/TaskQueue/handle.py together, over any backend that keeps the
-- contract of src/TaskQueue/backends/interface.py: what a caller hears of the way its job ended.
pub mod Stored
pub mod Saved
pub mod Ways
pub mod Run
pub mod Claim
pub mod Round
pub mod Rounds
pub mod Workers
pub mod Cancel
pub mod Written
pub mod Tests
