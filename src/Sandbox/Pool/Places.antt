-- ===== src/Sandbox/Pool/Places.antt =====
-- The places of the pool, promised and taken, under the parts of its operations.
-- Code: `_take`, `_start`, `_pump` and `_discard` of src/app/sandbox/pool.py.
use fin_agent_platform.Prelude.{
  ℕ, suc, ◌+◌, ◌≤◌, ◌<◌, ◌≡◌, inl, inr, Bool, true, false, some, List, [], ◌∷◌, length, zero,
  contains, List-cases, length-append, Distinct, Bool-cases, Option-cases, filter, ◌==◌, arith,
}
use fin_agent_platform.Sandbox.Pool.{
  Slot, Waiter, Config, Pool, empty_pool, enqueue, find_slot, put_slot, drop_slot, make_room,
  pump_from, pump, grant_next, Lapse, cancels, abandons, lapse, lapse_all, cancel_future, abandon,
  Grant, acquired, waiting, start_failed, new_slot, start_slot, take_new, take_slot, find_waiter,
  remove_waiter, give_back, drop_all, add_holder,
}
use fin_agent_platform.Sandbox.Pool.Slots.{
  length-remove_slot, length-put_slot-le, length-put_slot, find_slot_self, threads,
  length-remove_slot-le, remove_slot-Distinct, put_slot-Distinct,
}
use fin_agent_platform.Sandbox.Pool.Cases.{evicted, without, drop_slot-cases, make_room-cases}

-- A reserved place at least for each granted waiter, at most `n` places taken, each thread once.
pub record Fits (n : ℕ) (p : Pool) : Type 0 where
  pub promised : length p.granted ≤ p.reserved
  pub bounded : length p.slots + p.reserved ≤ n
  pub distinct : Distinct (threads p.slots)

pub empty_pool-Fits : (n : ℕ) → Fits n empty_pool
empty_pool-Fits n = record { promised = omega arith; bounded = omega arith; distinct = tt }

without-Fits : (n : ℕ) (s : Slot) (p : Pool) → Fits n p → Fits n (without s p)
unfolding filter
without-Fits n s p h = record {
  promised = h.promised;
  bounded = omega (arith, h.bounded, length-remove_slot-le s.thread p.slots);
  distinct = remove_slot-Distinct s.thread p.slots h.distinct;
}

pub put_slot-Fits :
    (n : ℕ) (s b : Slot) (p : Pool)
    → find_slot s.thread p.slots ≡ some b
    → Fits n p
    → Fits n (record p { slots = put_slot s p.slots })
put_slot-Fits n s b p e h = record {
  promised = h.promised;
  bounded = omega (arith, h.bounded, length-put_slot s b p.slots e);
  distinct = put_slot-Distinct s p.slots h.distinct;
}

pub drop_slot-Fits : (n t : ℕ) (p : Pool) → Fits n p → Fits n (drop_slot t p)
drop_slot-Fits n t p h = elim (drop_slot-cases t p) [
  | inl (_, e) ↦ rw e h
  | inr (s, _, _, e) ↦ rw e (without-Fits n s p h)
]

pub start_slot-Fits :
    (n t k now : ℕ) (started : Bool) (p : Pool)
    → Fits n p
    → length p.slots + p.reserved < n
    → Fits n (start_slot t k now started p).1
unfolding start_slot
start_slot-Fits n t k now false p h room = h
start_slot-Fits n t k now true p h room = record {
  promised = h.promised;
  bounded = omega (arith, length-put_slot-le (new_slot t p.next_container k now) p.slots);
  distinct = put_slot-Distinct (new_slot t p.next_container k now) p.slots h.distinct;
}

pub drop_all-Fits : (n : ℕ) (l : List Slot) (p : Pool) → Fits n p → Fits n (drop_all l p)
unfolding drop_all
drop_all-Fits n [] p h = h
drop_all-Fits n (s ∷ l) p h = drop_all-Fits n l _ (drop_slot-Fits n s.thread p h)

length-remove_waiter :
    (k : ℕ) (l : List Waiter) (w : Waiter)
    → find_waiter k l ≡ some w
    → suc (length (remove_waiter k l)) ≡ length l
unfolding find_waiter remove_waiter
length-remove_waiter k [] w h = ground arith
length-remove_waiter k (x ∷ l) w h = elim (Bool-cases (x.ticket == k)) [
  | inl e ↦ ground arith
  | inr e ↦ ground (arith, length-remove_waiter k l w (ground arith))
]

pub length-remove_waiter-le : (k : ℕ) (l : List Waiter) → length (remove_waiter k l) ≤ length l
unfolding remove_waiter
length-remove_waiter-le k [] = omega arith
length-remove_waiter-le k (w ∷ l) = ground (arith, length-remove_waiter-le k l)

pub give_back-Fits :
    (n k : ℕ) (w : Waiter) (p : Pool)
    → find_waiter k p.granted ≡ some w
    → Fits n p
    → Fits n (give_back k p) × (length (give_back k p).slots + (give_back k p).reserved < n)
give_back-Fits n k w p e h =
    let one = length-remove_waiter k p.granted w e in
    (
      record {
        promised = omega (arith, h.promised);
        bounded = omega (arith, h.bounded);
        distinct = h.distinct;
      },
      omega (arith, h.promised, h.bounded),
    )

abandon-Fits : (n k : ℕ) (p : Pool) → Fits n p → Fits n (abandon k p)
unfolding abandon
abandon-Fits n k p h = elim (Option-cases (find_waiter k p.granted)) [
  | inl e ↦
      rw (e, abandon) (record { promised = h.promised; bounded = h.bounded; distinct = h.distinct })
  | inr (w, e) ↦ rw (e, abandon) (give_back-Fits n k w p e h).0
]

pub lapse-Fits : (n : ℕ) (l : Lapse) (p : Pool) → Fits n p → Fits n (lapse l p)
unfolding lapse cancel_future
lapse-Fits n (cancels k) p h = elim (Option-cases (find_waiter k p.granted)) [
  | inl e ↦
      rw (e, cancel_future)
        (record { promised = h.promised; bounded = h.bounded; distinct = h.distinct })
  | inr (w, e) ↦ rw (e, cancel_future) h
]
lapse-Fits n (abandons k) p h = abandon-Fits n k p h

lapse_room :
    (n : ℕ) (l : Lapse) (p : Pool)
    → length p.slots + p.reserved < n
    → length (lapse l p).slots + (lapse l p).reserved < n
unfolding lapse abandon cancel_future
lapse_room n (cancels k) p room = elim (Option-cases (find_waiter k p.granted)) [
  | inl e ↦ rw (e, cancel_future) room
  | inr (w, e) ↦ rw (e, cancel_future) room
]
lapse_room n (abandons k) p room = elim (Option-cases (find_waiter k p.granted)) [
  | inl e ↦ rw (e, abandon) room
  | inr (w, e) ↦ rw (e, abandon) (omega (arith, room))
]

lapse_all-Fits :
    (n : ℕ) (ls : List Lapse) (p : Pool)
    → Fits n p
    → length p.slots + p.reserved < n
    → Fits n (lapse_all ls p) × (length (lapse_all ls p).slots + (lapse_all ls p).reserved < n)
unfolding lapse_all
lapse_all-Fits n [] p h room = (h, room)
lapse_all-Fits n (l ∷ ls) p h room =
    lapse_all-Fits n ls (lapse l p) (lapse-Fits n l p h) (lapse_room n l p room)

module _ (c : Config) (n : ℕ) (within : c.max_container ≤ n) where
  make_room-Fits :
      (p q : Pool)
      → Fits n p
      → make_room c p ≡ some q
      → Fits n q × (length q.slots + q.reserved < n)
  make_room-Fits p q h e = elim (make_room-cases c p h.distinct) [
    | inl (stuck, _, _) ↦ ground arith
    | inr (inl (f, room)) ↦ let same : p ≡ q = ground arith in rw (← same) (h, ground arith)
    | inr (inr (v, f, found, _)) ↦
        let same : evicted c v p ≡ q = ground arith in
        rw (← same) (
          lapse_all-Fits n (c.meanwhile v.container) (without v p) (without-Fits n v p h)
            (omega (arith, h.bounded, length-remove_slot v.thread p.slots v found)))
  ]

  take_new-Fits :
      (t k now : ℕ) (started : Bool) (p : Pool) → Fits n p → Fits n (take_new c t k now started p).1
  unfolding take_new
  take_new-Fits t k now started p h = elim (Option-cases (make_room c p)) [
    | inl e ↦ rw (e, take_new) h
    | inr (q, e) ↦
        let (fits, room) = make_room-Fits p q h e in
        rw (e, take_new) (start_slot-Fits n t k now started q fits room)
  ]

  pub enqueue-Fits : (w : Waiter) (r : Grant × Pool) → Fits n r.1 → Fits n (enqueue w r).1
  enqueue-Fits w (waiting, p) h = record {
    promised = h.promised;
    bounded = h.bounded;
    distinct = h.distinct;
  }
  enqueue-Fits w (acquired x, p) h = h
  enqueue-Fits w (start_failed, p) h = h

  pub take_slot-Fits :
      (t k now : ℕ) (alive started : Bool) (p : Pool)
      → Fits n p
      → Fits n (take_slot c t k now alive started p).1
  unfolding take_slot
  take_slot-Fits t k now alive started p h = elim (Option-cases (find_slot t p.slots)) [
    | inl e ↦ rw (e, take_slot) (take_new-Fits t k now started p h)
    | inr (s, e) ↦ elim (Bool-cases alive) [
      | inl a ↦
          let used : Slot = record s { holder = add_holder k s.holder; last_used = now } in
          rw (e, a, take_slot) (put_slot-Fits n used s p (find_slot_self t p.slots s e) h)
      | inr a ↦
          rw (e, a, take_slot)
            (take_new-Fits t k now started (drop_slot t p) (drop_slot-Fits n t p h))
    ]
  ]

  grant_next-Fits : (p : Pool) → Fits n p → length p.slots + p.reserved < n → Fits n (grant_next p)
  unfolding grant_next contains
  grant_next-Fits p h room = elim (List-cases p.queue) [
    | inl e ↦ rw e (record {
      promised = omega (arith, h.promised);
      bounded = omega (arith, room);
      distinct = h.distinct;
    })
    | inr (w, q, e) ↦ elim (Bool-cases (contains w.ticket p.cancelled)) [
      | inl x ↦
          rw (e, x)
            (record {
              promised = omega (arith, h.promised);
              bounded = omega (arith, room);
              distinct = h.distinct;
            })
      | inr x ↦
          rw (e, x)
            (record {
              promised = omega (arith, length-append p.granted (w ∷ []), h.promised);
              bounded = omega (arith, room);
              distinct = h.distinct;
            })
    ]
  ]

  pump_from-Fits : (m : ℕ) (p : Pool) → Fits n p → Fits n (pump_from c m p)
  unfolding pump_from
  pump_from-Fits zero p h = h
  pump_from-Fits (suc m) p h = elim (List-cases p.queue) [
    | inl e ↦ rw (e, pump_from) h
    | inr (w, l, e) ↦ elim (Option-cases (make_room c p)) [
      | inl r ↦ rw (e, r, pump_from) h
      | inr (q, r) ↦
          let (fits, room) = make_room-Fits p q h r in
          let next = grant_next-Fits q fits room in
          elim (Bool-cases (grant_next q).raised) [
            | inl x ↦ rw (e, r, x, pump_from) next
            | inr x ↦ rw (e, r, x, pump_from) (pump_from-Fits m (grant_next q) next)
          ]
    ]
  ]

  pub pump-Fits : (p : Pool) → Fits n p → Fits n (pump c p)
  unfolding pump
  pump-Fits p h =
      pump_from-Fits (length p.queue) (record p { raised = false })
        (record { promised = h.promised; bounded = h.bounded; distinct = h.distinct })
