-- ===== src/Memory.antt =====
-- The memory of a thread: the outbox of extraction jobs, and the usage of its models.
-- Code: src/app/memory/job.py.
pub mod Job
pub mod Usage
