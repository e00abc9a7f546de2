-- ===== src/Task/Worker.antt =====
-- `Worker` of src/app/worker/loop.py: the main loop as steps, one for each round of the loop, each
-- heartbeat and each task that ends. The drain at the end waits for the tasks that end.
pub mod Taken
pub mod Slots
use fin_agent_platform.Prelude.{
  ℕ, suc, Bool, true, false, not, Option, none, some, List, [], ◌∷◌, ◌==◌, leb, if◌then◌else◌,
  length, filter,
}
use fin_agent_platform.Run.Executor.{RunTask}
use fin_agent_platform.Task.Queue.{Queue, Limits, publish, reserve, ack, touch}

-- `_running`, by the messages that the tasks were started for, and `_stopping`.
pub record Worker : Type 0 where
  pub queue : Queue
  pub running : List ℕ
  pub stopping : Bool

-- `_spawn`
abbrev pub spawn : Option ℕ × Queue → Worker → Worker
spawn (none, q) w = record w { queue = q }
spawn (some id, q) w = record w { queue = q; running = id ∷ w.running }

-- One round of `run`: with all places taken it waits for a task to end.
unfoldable pub run_round : Limits → ℕ → ℕ → Worker → Worker
unfolding reserve
run_round l concurrency now w =
    if w.stopping
    then w
    else if leb concurrency (length w.running)
    then w
    else spawn (reserve l now w.queue) w

-- The `finally` of `_handle`, and the callback of the task.
unfoldable pub handled : ℕ → Worker → Worker
unfolding ack filter
handled id w = record w { queue = ack id w.queue; running = filter (λ x. not (x == id)) w.running }

-- `_keep_alive`
unfoldable pub beat : ℕ → ℕ → Worker → Worker
unfolding touch
beat id now w = record w { queue = touch id now w.queue }

-- `stop`, and a publication from another process.
pub data Step : Type 0 where
  rounds : ℕ → Step
  handles : ℕ → Step
  beats : ℕ → ℕ → Step
  stops : Step
  submits : ℕ → RunTask → Step

unfoldable pub after_step : Limits → ℕ → Step → Worker → Worker
unfolding run_round handled beat publish
after_step l concurrency (rounds now) w = run_round l concurrency now w
after_step l concurrency (handles id) w = handled id w
after_step l concurrency (beats id now) w = beat id now w
after_step l concurrency stops w = record w { stopping = true }
after_step l concurrency (submits id task) w = record w { queue = publish id task w.queue }

unfoldable pub after_steps : Limits → ℕ → List Step → Worker → Worker
after_steps l concurrency [] w = w
after_steps l concurrency (s ∷ ss) w = after_steps l concurrency ss (after_step l concurrency s w)
