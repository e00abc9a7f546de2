-- ===== src/Task/Worker/Slots.antt =====
-- How many tasks a worker runs, and for which messages.
-- Code: `run`, `_spawn` and `_handle` of src/app/worker/loop.py.
use fin_agent_platform.Prelude.{
  ℕ, ◌≡◌, ◌≤◌, ◌<◌, refl, sym, ap, ◌∙◌, inl, inr, Bool, true, false, not, Option, none, some, List,
  [], ◌∷◌, ◌==◌, leb, length, contains, filter, Distinct, All, All-map, Bool-cases, arith,
  if◌then◌else◌, length-filter-le,
}
use fin_agent_platform.Task.Queue.{
  PendingMessage, Queue, Limits, publish, reserve, ack, touch, remove_id,
}
use fin_agent_platform.Task.Worker.{
  Worker, spawn, run_round, handled, beat, Step, rounds, handles, beats, stops, submits, after_step,
  after_steps,
}
use fin_agent_platform.Task.Worker.Taken.{AreDelivered, IsTaken, renewed, reserve-IsTaken}

-- The tasks are for the messages in the hands of the consumer, a different one each, all of them
-- delivered, and there are at most `n`.
pub record IsBounded (n : ℕ) (w : Worker) : Type 0 where
  pub same : w.running ≡ w.queue.held
  pub distinct : Distinct w.running
  pub delivered : All (λ a. a ≤ w.queue.last_delivered) w.running
  pub pending : AreDelivered w.queue.last_delivered w.queue.unacked
  pub bounded : length w.running ≤ n

contains-filter :
    (a : ℕ) (p : ℕ → Bool) (l : List ℕ) → contains a l ≡ false → contains a (filter p l) ≡ false
unfolding contains filter
contains-filter a p [] h = refl
contains-filter a p (x ∷ l) h = ground (arith, contains-filter a p l)

filter-Distinct : (p : ℕ → Bool) (l : List ℕ) → Distinct l → Distinct (filter p l)
unfolding filter
filter-Distinct p [] h = tt
filter-Distinct p (x ∷ l) h = elim (Bool-cases (p x)) [
  | inl e ↦ rw e (contains-filter x p l h.0, filter-Distinct p l h.1)
  | inr e ↦ rw e (filter-Distinct p l h.1)
]

All-filtered :
    (n : ℕ) (p : ℕ → Bool) (l : List ℕ) → All (λ a. a ≤ n) l → All (λ a. a ≤ n) (filter p l)
unfolding filter
All-filtered n p [] h = tt
All-filtered n p (x ∷ l) h = elim (Bool-cases (p x)) [
  | inl e ↦ rw e (h.0, All-filtered n p l h.1)
  | inr e ↦ rw e (All-filtered n p l h.1)
]

removed :
    (n id : ℕ) (ps : List PendingMessage) → AreDelivered n ps → AreDelivered n (remove_id id ps)
unfolding remove_id
removed n id [] h = tt
removed n id (p ∷ ps) h = elim (Bool-cases (p.id == id)) [
  | inl e ↦ rw e (removed n id ps h.1)
  | inr e ↦ rw e (h.0, removed n id ps h.1)
]

either-IsBounded :
    (n : ℕ) (b : Bool) (v w : Worker)
    → (b ≡ true → IsBounded n v)
    → (b ≡ false → IsBounded n w)
    → IsBounded n (if b then v else w)
either-IsBounded n true v w h k = h refl
either-IsBounded n false v w h k = k refl

spawn-IsBounded :
    (n : ℕ) (r : Option ℕ × Queue) (w : Worker)
    → IsTaken w.queue r.0 r.1
    → length w.running < n
    → IsBounded n w
    → IsBounded n (spawn r w)
spawn-IsBounded n (none, q) w t room h = elim t.hands [
  | inl (_, kept) ↦ record {
    same = h.same ∙ sym kept;
    distinct = h.distinct;
    delivered = All-map _ _ w.running (λ a b. omega (arith, t.later)) h.delivered;
    pending = t.pending;
    bounded = h.bounded;
  }
  | inr (id, bad, _, _, _) ↦ ground arith
]
spawn-IsBounded n (some id, q) w t room h = elim t.hands [
  | inl (bad, _) ↦ ground arith
  | inr (i, e, more, free, low) ↦
      let same_id : id ≡ i = ground arith in
      record {
        same = ap (λ l. id ∷ l) h.same ∙ ap (λ x. x ∷ w.queue.held) same_id ∙ sym more;
        distinct = (rw (h.same, same_id) free, h.distinct);
        delivered =
            (rw same_id low, All-map _ _ w.running (λ a b. omega (arith, t.later)) h.delivered);
        pending = t.pending;
        bounded = room;
      }
]

module _ (l : Limits) (concurrency n : ℕ) (within : concurrency ≤ n) where
  run_round-IsBounded :
      (now : ℕ) (w : Worker) → IsBounded n w → IsBounded n (run_round l concurrency now w)
  unfolding run_round
  run_round-IsBounded now w h =
      either-IsBounded n w.stopping _ _ (λ _. h)
        (λ _.
          either-IsBounded n (leb concurrency (length w.running)) _ _ (λ _. h)
            (λ room.
              let taken = reserve-IsTaken l now w.queue h.pending (rw (sym h.same) h.delivered) in
              spawn-IsBounded n (reserve l now w.queue) w taken (ground arith) h))

  after_step-IsBounded :
      (s : Step) (w : Worker) → IsBounded n w → IsBounded n (after_step l concurrency s w)
  unfolding after_step handled beat ack touch publish filter
  after_step-IsBounded (rounds now) w h = run_round-IsBounded now w h
  after_step-IsBounded (handles id) w h = record {
    same = ap (filter (λ x. not (x == id))) h.same;
    distinct = filter-Distinct _ w.running h.distinct;
    delivered = All-filtered w.queue.last_delivered _ w.running h.delivered;
    pending = removed w.queue.last_delivered id w.queue.unacked h.pending;
    bounded = omega (arith, h.bounded, length-filter-le (λ x. not (x == id)) w.running);
  }
  after_step-IsBounded (beats id now) w h = record {
    same = h.same;
    distinct = h.distinct;
    delivered = h.delivered;
    pending = renewed id now w.queue.last_delivered w.queue.unacked h.pending;
    bounded = h.bounded;
  }
  after_step-IsBounded stops w h = record {
    same = h.same;
    distinct = h.distinct;
    delivered = h.delivered;
    pending = h.pending;
    bounded = h.bounded;
  }
  after_step-IsBounded (submits id task) w h = record {
    same = h.same;
    distinct = h.distinct;
    delivered = h.delivered;
    pending = h.pending;
    bounded = h.bounded;
  }

  -- Whatever the rounds of the loop, the heartbeats, the ends of tasks and the submissions: a worker
  -- never runs more tasks than its concurrency allows, and never two for one message; its tasks are
  -- those for the messages in its hands.
  pub after_steps-IsBounded :
      (ss : List Step) (w : Worker) → IsBounded n w → IsBounded n (after_steps l concurrency ss w)
  unfolding after_steps
  after_steps-IsBounded [] w h = h
  after_steps-IsBounded (s ∷ ss) w h = after_steps-IsBounded ss _ (after_step-IsBounded s w h)
