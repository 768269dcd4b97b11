-- ===== src/Job.antt =====
-- src/TaskQueue/job.py: the job, its status, and its stored form. The serializer and `datetime` are
-- parameters (src/TaskQueue/serializers/interface.py states the serializer's contract).
pub mod Status
pub mod Codec
pub mod Record
pub mod Stored
pub mod RoundTrip
pub mod Tests
