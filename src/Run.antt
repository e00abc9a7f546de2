-- ===== src/Run.antt =====
-- The life of a run: its table and repository, the teacher's decisions, the replay of its events,
-- the two sweeps that end abandoned runs. Code: src/app/run/.
pub mod Repository
pub mod Decision
pub mod Replay
pub mod Query
pub mod Executor
pub mod Route
pub mod Sweep
pub mod Log
pub mod Pages
