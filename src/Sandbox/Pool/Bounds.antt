-- ===== src/Sandbox/Pool/Bounds.antt =====
-- How many containers the pool counts, over every history of its operations.
-- Code: `SandboxPool` of src/app/sandbox/pool.py.
use fin_agent_platform.Prelude.{
  ℕ, ◌≤◌, ◌≡◌, refl, inl, inr, Bool, List, [], ◌∷◌, length, Option-cases, filter, arith,
}
use fin_agent_platform.Sandbox.Pool.{
  Slot, Config, Pool, find_slot, acquire, find_waiter, give_back, start_granted, release,
  discard_thread, current, expire_lease, sweep, aclose, Op, acquires, resumes, lapses, releases,
  discards, looks, sweeps, closes, after_op, after_ops, drop_holder, is_long_idle,
}
use fin_agent_platform.Sandbox.Pool.Slots.{find_slot_self, threads}
use fin_agent_platform.Sandbox.Pool.Places.{
  Fits, put_slot-Fits, drop_slot-Fits, start_slot-Fits, enqueue-Fits, take_slot-Fits, pump-Fits,
  lapse-Fits, give_back-Fits, drop_all-Fits,
}

module _ (c : Config) (n : ℕ) (within : c.max_container ≤ n) where
  start_granted-Fits :
      (k now : ℕ) (started : Bool) (p : Pool) → Fits n p → Fits n (start_granted k now started p).1
  unfolding start_granted
  start_granted-Fits k now started p h = elim (Option-cases (find_waiter k p.granted)) [
    | inl e ↦ rw (e, start_granted) h
    | inr (w, e) ↦
        let (fits, room) = give_back-Fits n k w p e h in
        rw (e, start_granted)
          (start_slot-Fits n w.thread w.holder now started (give_back k p) fits room)
  ]

  release-Fits : (t k now : ℕ) (p : Pool) → Fits n p → Fits n (release c t k now p)
  unfolding release filter
  release-Fits t k now p h = elim (Option-cases (find_slot t p.slots)) [
    | inl e ↦ rw (e, release) (pump-Fits c n within p h)
    | inr (s, e) ↦
        let left : Slot = record s { holder = drop_holder k s.holder; last_used = now } in
        rw (e, release)
          (pump-Fits c n within _ (put_slot-Fits n left s p (find_slot_self t p.slots s e) h))
  ]

  current-Fits : (t now : ℕ) (p : Pool) → Fits n p → Fits n (current t now p).1
  unfolding current
  current-Fits t now p h = elim (Option-cases (find_slot t p.slots)) [
    | inl e ↦ rw (e, current) h
    | inr (s, e) ↦
        rw (e, current)
          (put_slot-Fits n (record s { last_used = now }) s p (find_slot_self t p.slots s e) h)
  ]

  threads-expire_lease : (now : ℕ) (l : List Slot) → threads (expire_lease c now l) ≡ threads l
  unfolding expire_lease
  threads-expire_lease now [] = refl
  threads-expire_lease now (s ∷ l) = ground (arith, threads-expire_lease now l)

  length-expire_lease : (now : ℕ) (l : List Slot) → length (expire_lease c now l) ≡ length l
  unfolding expire_lease
  length-expire_lease now [] = refl
  length-expire_lease now (s ∷ l) = omega (arith, length-expire_lease now l)

  sweep-Fits : (now : ℕ) (p : Pool) → Fits n p → Fits n (sweep c now p)
  unfolding sweep filter
  sweep-Fits now p h = pump-Fits c n within _ (
      drop_all-Fits n (filter (is_long_idle c now) (expire_lease c now p.slots))
        (record p { slots = expire_lease c now p.slots })
        (record {
          promised = h.promised;
          bounded = omega (arith, h.bounded, length-expire_lease now p.slots);
          distinct = rw (threads-expire_lease now p.slots) h.distinct;
        }))

  aclose-Fits : (p : Pool) → Fits n p → Fits n (aclose p)
  unfolding aclose
  aclose-Fits p h =
      drop_all-Fits n p.slots _
        (record { promised = h.promised; bounded = h.bounded; distinct = h.distinct })

  pub after_op-Fits : (o : Op) (p : Pool) → Fits n p → Fits n (after_op c o p)
  unfolding after_op acquire discard_thread
  after_op-Fits (acquires w now alive started) p h =
      enqueue-Fits c n within w _
        (take_slot-Fits c n within w.thread w.holder now alive started p h)
  after_op-Fits (resumes k now started) p h = start_granted-Fits k now started p h
  after_op-Fits (lapses l) p h = lapse-Fits n l p h
  after_op-Fits (releases t k now) p h = release-Fits t k now p h
  after_op-Fits (discards t) p h = pump-Fits c n within _ (drop_slot-Fits n t p h)
  after_op-Fits (looks t now) p h = current-Fits t now p h
  after_op-Fits (sweeps now) p h = sweep-Fits now p h
  after_op-Fits closes p h = aclose-Fits p h

  -- Whatever runs without the lock while an eviction waits: from a pool with at least a reserved place
  -- for each waiter let through, each thread at most once and no
  -- more than `n` places taken, where `n` is at least the maximum, every history of operations leads
  -- to such a pool: so its slots and reserved places never exceed `n`.
  pub after_ops-Fits : (os : List Op) (p : Pool) → Fits n p → Fits n (after_ops c os p)
  unfolding after_ops
  after_ops-Fits [] p h = h
  after_ops-Fits (o ∷ os) p h = after_ops-Fits os _ (after_op-Fits o p h)
