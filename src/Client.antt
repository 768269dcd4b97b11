-- ===== src/Client.antt =====
-- What a program that uses the queue calls: src/TaskQueue/task.py, src/TaskQueue/handle.py and the
-- task registry of src/TaskQueue/queue.py.
pub mod Handle
pub mod Task
pub mod Registry
pub mod Open
pub mod Outcome
mod Tests
