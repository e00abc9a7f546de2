-- ===== src/Sandbox/Pool/Settled.antt =====
-- The queue after a pump: who is let through, in what order, and when it stops.
-- Code: `_pump` and its callers of src/app/sandbox/pool.py.
use fin_agent_platform.Prelude.{
  ℕ, zero, suc, ◌≤◌, ◌≡◌, ap, inl, inr, Bool, true, false, some, List, [], ◌∷◌, contains, length,
  Distinct, All, Bool-cases, Option-cases, List-cases, filter, arith,
}
use fin_agent_platform.Sandbox.Pool.{
  Slot, Config, Pool, find_slot, put_slot, is_busy, drop_slot, has_room, make_room, find_waiter,
  abandon, Lapse, cancels, abandons, cancel_future, lapse, lapse_all, grant_next, pump_from, pump,
  release, discard_thread, expire_lease, drop_all, sweep, Op, acquires, resumes, lapses, releases,
  discards, looks, sweeps, closes, after_op, drop_holder, is_long_idle,
}
use fin_agent_platform.Sandbox.Pool.Slots.{
  threads, put_slot-Distinct, remove_slot-Distinct, victim-none,
}
use fin_agent_platform.Sandbox.Pool.Cases.{without, evicted, drop_slot-cases, make_room-cases}
use fin_agent_platform.Sandbox.Pool.Places.{length-remove_waiter-le}
use fin_agent_platform.Sandbox.Pool.Busy.{threads-expire_lease}
use fin_agent_platform.Sandbox.Pool.Holders.{make_room-Distinct, grant_next-slots}

-- A pump has raised, or let everybody through, or stops at a pool that is full of containers in use.
pub data IsPumped (c : Config) (q : Pool) : Type 0 where
  failed : q.raised ≡ true → IsPumped c q
  empty : q.queue ≡ [] → IsPumped c q
  full : has_room c q ≡ false → All (λ (s : Slot). is_busy s ≡ true) q.slots → IsPumped c q

length-abandon : (k : ℕ) (p : Pool) → length (abandon k p).queue ≤ length p.queue
unfolding abandon
length-abandon k p = elim (Option-cases (find_waiter k p.granted)) [
  | inl e ↦ rw (e, abandon) (length-remove_waiter-le k p.queue)
  | inr (w, e) ↦ rw (e, abandon) (omega arith)
]

length-lapse : (l : Lapse) (p : Pool) → length (lapse l p).queue ≤ length p.queue
unfolding lapse cancel_future
length-lapse (cancels k) p = elim (Option-cases (find_waiter k p.granted)) [
  | inl e ↦ rw (e, cancel_future) (omega arith)
  | inr (w, e) ↦ rw (e, cancel_future) (omega arith)
]
length-lapse (abandons k) p = length-abandon k p

length-lapse_all : (ls : List Lapse) (p : Pool) → length (lapse_all ls p).queue ≤ length p.queue
unfolding lapse_all
length-lapse_all [] p = omega arith
length-lapse_all (l ∷ ls) p = omega (arith, length-lapse_all ls (lapse l p), length-lapse l p)

length-make_room :
    (c : Config) (p q : Pool)
    → Distinct (threads p.slots)
    → make_room c p ≡ some q
    → length q.queue ≤ length p.queue
length-make_room c p q d e = elim (make_room-cases c p d) [
  | inl (stuck, _, _) ↦ ground arith
  | inr (inl (f, _)) ↦ let same : p ≡ q = ground arith in rw (← same) (omega arith)
  | inr (inr (v, f, _, _)) ↦
      let same : evicted c v p ≡ q = ground arith in
      rw (← same) (length-lapse_all (c.meanwhile v.container) (without v p))
]

-- A turn that does not raise takes one from the queue.
length-grant_next :
    (p : Pool) → (grant_next p).raised ≡ false → suc (length (grant_next p).queue) ≡ length p.queue
unfolding grant_next contains
length-grant_next p h = elim (List-cases p.queue) [
  | inl e ↦ let k : true ≡ false = rw e at h in absurd (ground (arith, k))
  | inr (w, q, e) ↦ elim (Bool-cases (contains w.ticket p.cancelled)) [
    | inl x ↦ let k : true ≡ false = rw (e, x) at h in absurd (ground (arith, k))
    | inr x ↦ rw (e, x)
  ]
]

pump_from-IsPumped :
    (c : Config) (n : ℕ) (p : Pool)
    → length p.queue ≤ n
    → Distinct (threads p.slots)
    → IsPumped c (pump_from c n p)
unfolding pump_from
pump_from-IsPumped c zero p enough d = elim (List-cases p.queue) [
  | inl e ↦ empty e
  | inr (w, q, e) ↦ absurd (omega (arith, ap length e))
]
pump_from-IsPumped c (suc n) p enough d = elim (List-cases p.queue) [
  | inl e ↦ rw (e, pump_from) (empty e)
  | inr (w, l, e) ↦ elim (Option-cases (make_room c p)) [
    | inl m ↦ elim (make_room-cases c p d) [
      | inl (_, no_room, busy) ↦ rw (e, m, pump_from) (full no_room (victim-none p.slots busy))
      | inr (inl (f, _)) ↦ ground arith
      | inr (inr (v, f, _, _)) ↦ ground arith
    ]
    | inr (q, m) ↦ elim (Bool-cases (grant_next q).raised) [
      | inl x ↦ rw (e, m, x, pump_from) (failed x)
      | inr x ↦
          let less = length-grant_next q x in
          let shorter = length-make_room c p q d m in
          let once : Distinct (threads (grant_next q).slots) =
            rw (grant_next-slots q) (make_room-Distinct c p q d m) in
          rw (e, m, x, pump_from)
            (pump_from-IsPumped c n (grant_next q) (omega (arith, less, shorter, enough)) once)
    ]
  ]
]

pump-IsPumped : (c : Config) (p : Pool) → Distinct (threads p.slots) → IsPumped c (pump c p)
unfolding pump
pump-IsPumped c p d =
    pump_from-IsPumped c (length p.queue) (record p { raised = false }) (omega arith) d

drop_slot-once :
    (t : ℕ) (p : Pool) → Distinct (threads p.slots) → Distinct (threads (drop_slot t p).slots)
drop_slot-once t p d = elim (drop_slot-cases t p) [
  | inl (_, e) ↦ rw e d
  | inr (s, _, _, e) ↦ rw e (remove_slot-Distinct s.thread p.slots d)
]

drop_all-once :
    (l : List Slot) (p : Pool)
    → Distinct (threads p.slots)
    → Distinct (threads (drop_all l p).slots)
unfolding drop_all
drop_all-once [] p d = d
drop_all-once (s ∷ l) p d = drop_all-once l (drop_slot s.thread p) (drop_slot-once s.thread p d)

release-IsPumped :
    (c : Config) (t h now : ℕ) (p : Pool)
    → Distinct (threads p.slots)
    → IsPumped c (release c t h now p)
unfolding release filter
release-IsPumped c t h now p d = elim (Option-cases (find_slot t p.slots)) [
  | inl e ↦ rw (e, release) (pump-IsPumped c p d)
  | inr (s, e) ↦
      let left : Slot = record s { holder = drop_holder h s.holder; last_used = now } in
      rw (e, release)
        (pump-IsPumped c (record p { slots = put_slot left p.slots })
          (put_slot-Distinct left p.slots d))
]

sweep-IsPumped :
    (c : Config) (now : ℕ) (p : Pool) → Distinct (threads p.slots) → IsPumped c (sweep c now p)
unfolding sweep filter
sweep-IsPumped c now p d =
    let all : List Slot = expire_lease c now p.slots in
    let once : Distinct (threads all) = rw (threads-expire_lease c now p.slots) d in
    pump-IsPumped c (drop_all (filter (is_long_idle c now) all) (record p { slots = all }))
      (drop_all-once (filter (is_long_idle c now) all) (record p { slots = all }) once)

-- The operations that end in a pump.
unfoldable pub pumps : Op → Bool
pumps (releases thread holder now) = true
pumps (discards thread) = true
pumps (sweeps now) = true
pumps _ = false

-- Whatever runs without the lock before, and while evictions wait: where each thread has at most one
-- slot, a release, a discard and a sweep end in an exception of `_pump`, or leave nobody waiting, or
-- leave a pool that is full and whose containers are all in use.
pub after_op-IsPumped :
    (c : Config) (o : Op) (p : Pool)
    → pumps o ≡ true
    → Distinct (threads p.slots)
    → IsPumped c (after_op c o p)
unfolding pumps after_op discard_thread
after_op-IsPumped c (acquires w now alive started) p e d = ground arith
after_op-IsPumped c (resumes k now started) p e d = ground arith
after_op-IsPumped c (lapses l) p e d = ground arith
after_op-IsPumped c (releases t h now) p e d = release-IsPumped c t h now p d
after_op-IsPumped c (discards t) p e d = pump-IsPumped c (drop_slot t p) (drop_slot-once t p d)
after_op-IsPumped c (looks t now) p e d = ground arith
after_op-IsPumped c (sweeps now) p e d = sweep-IsPumped c now p d
after_op-IsPumped c closes p e d = ground arith
