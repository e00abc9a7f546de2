-- ===== src/Examples/Tasks.antt =====
-- The theorems on the queue and the worker: runs 7 and 8 are published, and the first is finished;
-- and a worker that took eleven messages crashes, and the next one has claimed ten of them.
use fin_agent_platform.Prelude.{
  ℕ, ◌*◌, ◌≡◌, refl, true, false, none, List, [], ◌∷◌, ◌++◌, map, Text, contains, arith, text_eq,
  filter,
}
use fin_agent_platform.Run.Repository.Table.{find}
use fin_agent_platform.Run.Executor.{RunTask}
use fin_agent_platform.Run.Sweep.Exact.{alone}
use fin_agent_platform.Run.Sweep.{World, hour, reap, is_among}
use fin_agent_platform.Task.Queue.{
  Queue, Limits, PendingMessage, empty_queue, publish, reserve, ack, claim_idle_message, claim_from,
  autoclaim, scan, from_id, read_new, first_after, remove_id, nothing_idle, in_flight,
}
use fin_agent_platform.Task.Queue.Claim.{IsClaim, claim_idle_message-IsClaim}
use fin_agent_platform.Task.Queue.Missed.{claim_idle_message_misses}
use fin_agent_platform.Task.Queue.Kept.{
  Op, publishes, reserves, acks, after_op, acked_after, IsKept,
}
use fin_agent_platform.Task.Queue.History.{AreLegal, after_ops, acked_all, after_ops-IsKept}
use fin_agent_platform.Task.Queue.Flight.{any_message, is_outstanding, in_flight_exact}
use fin_agent_platform.Task.Spared.{reap-outstanding}
use fin_agent_platform.Task.Worker.{Worker, Step, rounds, handles, submits, after_steps}
use fin_agent_platform.Task.Worker.Slots.{IsBounded, after_steps-IsBounded}
use fin_agent_platform.Examples.{decode, encode, decode-encode, sample_db, sample_db-IsTable}

abbrev limits : Limits
limits = record { max_length = 10000; claim_idle = 60000 }

abbrev task : ℕ → RunTask
task n = record {
  run_id = n ∷ [];
  thread_id = 1 ∷ [];
  content = [];
  user_id = none;
  skills = [];
  decisions = none;
}

abbrev start : Queue
start = record empty_queue { has_group = true }

abbrev history : List Op
history = publishes 1 (task 8) ∷ publishes 2 (task 7) ∷ reserves 10 ∷ reserves 20 ∷ acks 1 ∷ []

abbrev worked : Queue
worked = after_ops limits history start

start-IsKept : IsKept [] start
start-IsKept = record {
  ordered = tt;
  rising = tt;
  delivered = tt;
  present = tt;
  done = tt;
  exact = tt;
}

history-AreLegal : AreLegal limits history start
unfolding after_op publish reserve read_new first_after claim_idle_message claim_from autoclaim scan
    from_id
history-AreLegal = (
  (tt, omega arith, omega arith),
  (((omega arith, tt), omega arith, omega arith), (tt, (tt, (omega arith, tt)))),
)

worked-IsKept : IsKept (1 ∷ []) worked
unfolding acked_all acked_after
worked-IsKept = after_ops-IsKept limits history [] start history-AreLegal start-IsKept

in_flight_exact_example :
    is_among (7 ∷ []) (in_flight limits worked)
    ≡ any_message (is_outstanding (1 ∷ []) (7 ∷ [])) worked.stream
unfolding after_ops after_op publish reserve read_new first_after claim_idle_message claim_from
    autoclaim scan from_id ack remove_id filter contains
in_flight_exact_example =
    in_flight_exact limits (1 ∷ []) worked (7 ∷ []) refl worked-IsKept (omega arith) (omega arith)

abbrev world : World
world = record { db = sample_db; log = [] }

abbrev at : Text → ℕ
at t = 5

reap-outstanding_example :
    find 7
      (reap decode encode at at [] (100 * hour) 10 (in_flight limits worked) alone world).1.db.runs
    ≡ find 7 sample_db.runs
unfolding after_ops after_op publish reserve read_new first_after claim_idle_message claim_from
    autoclaim scan from_id ack remove_id filter contains any_message is_outstanding text_eq
reap-outstanding_example =
    reap-outstanding decode encode decode-encode at at limits (1 ∷ []) worked [] (100 * hour) 10
      world 7 refl worked-IsKept (omega arith) (omega arith) sample_db-IsTable refl

-- The messages 1 to 10 have just been claimed, and message 11 was last touched at 0.
abbrev claimed_ten : List PendingMessage
claimed_ten =
    map (λ n. record { id = n; touched = 61000 }) (1 ∷ 2 ∷ 3 ∷ 4 ∷ 5 ∷ 6 ∷ 7 ∷ 8 ∷ 9 ∷ 10 ∷ [])

abbrev left_over : List PendingMessage
left_over = record { id = 11; touched = 0 } ∷ []

abbrev crashed : Queue
crashed = record {
  stream =
      map (λ n. record { id = n; task = task n })
        (1 ∷ 2 ∷ 3 ∷ 4 ∷ 5 ∷ 6 ∷ 7 ∷ 8 ∷ 9 ∷ 10 ∷ 11 ∷ []);
  has_group = true;
  last_delivered = 11;
  unacked = claimed_ten ++ left_over;
  held = 10 ∷ 9 ∷ 8 ∷ 7 ∷ 6 ∷ 5 ∷ 4 ∷ 3 ∷ 2 ∷ 1 ∷ [];
}

claim_idle_message_misses_example :
    claim_idle_message limits 62000 crashed ≡ (nothing_idle, crashed)
claim_idle_message_misses_example =
    claim_idle_message_misses limits 62000 crashed claimed_ten left_over refl refl
      (refl, (refl, (refl, (refl, (refl, (refl, (refl, (refl, (refl, (refl, tt))))))))))

claim_idle_message-IsClaim_example :
    IsClaim limits 62000
      (record crashed { unacked = left_over })
      (claim_idle_message limits 62000 (record crashed { unacked = left_over })).0
claim_idle_message-IsClaim_example =
    claim_idle_message-IsClaim limits 62000 (record crashed { unacked = left_over })
      (omega arith, tt)

abbrev idle_worker : Worker
idle_worker = record { queue = start; running = []; stopping = false }

idle_worker-IsBounded : IsBounded 1 idle_worker
idle_worker-IsBounded = record {
  same = refl;
  distinct = tt;
  delivered = tt;
  pending = tt;
  bounded = omega arith;
}

abbrev steps : List Step
steps = submits 1 (task 7) ∷ submits 2 (task 8) ∷ rounds 10 ∷ rounds 11 ∷ handles 1 ∷ rounds 12 ∷ []

after_steps-IsBounded_example : IsBounded 1 (after_steps limits 1 steps idle_worker)
after_steps-IsBounded_example =
    after_steps-IsBounded limits 1 1 (omega arith) steps idle_worker idle_worker-IsBounded
