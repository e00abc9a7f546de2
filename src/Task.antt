-- ===== src/Task.antt =====
-- The queue of tasks and the worker that empties it. Code: src/app/task/, src/app/worker/loop.py.
pub mod Queue
pub mod Spared
pub mod Worker
