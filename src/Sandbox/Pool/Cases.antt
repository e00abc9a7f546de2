-- ===== src/Sandbox/Pool/Cases.antt =====
-- What the pool's parts come to, case by case.
-- Code: `_discard`, `_evict_idle` and `_has_room` of src/app/sandbox/pool.py.
use fin_agent_platform.Prelude.{
  ℕ, ◌≡◌, refl, ◌∙◌, ◌⊎◌, List, [], ◌∷◌, inl, inr, true, false, not, none, some, Distinct,
  Bool-cases, Option-cases, filter, ◌==◌, arith,
}
use fin_agent_platform.Sandbox.Pool.{
  Slot, Config, Pool, find_slot, remove_slot, is_busy, drop_slot, has_room, victim, evict_idle,
  make_room, Lapse, cancels, abandons, lapse, lapse_all, cancel_future, find_waiter, abandon,
}
use fin_agent_platform.Sandbox.Pool.Slots.{find_slot-thread, find_slot-victim, threads, victim-idle}

-- The pool without the slot `s`, whose container has stopped.
abbrev pub without : Slot → Pool → Pool
without s p = record p {
  slots = remove_slot s.thread p.slots;
  running = filter (λ x. not (x == s.container)) p.running;
}

pub drop_slot-cases :
    (t : ℕ) (p : Pool)
    → ((find_slot t p.slots ≡ none) × (drop_slot t p ≡ p))
      ⊎ ((s : Slot) × (find_slot t p.slots ≡ some s)
          × (s.thread ≡ t)
          × (drop_slot t p ≡ without s p))
unfolding drop_slot filter
drop_slot-cases t p = elim (Option-cases (find_slot t p.slots)) [
  | inl e ↦ inl (e, rw (e, drop_slot))
  | inr (s, e) ↦
      let same = find_slot-thread t p.slots s e in inr (s, e, same, rw (e, drop_slot, same))
]

-- What runs without the lock changes no slot.
pub lapse-slots : (l : Lapse) (p : Pool) → (lapse l p).slots ≡ p.slots
unfolding lapse abandon cancel_future
lapse-slots (cancels k) p = elim (Option-cases (find_waiter k p.granted)) [
  | inl e ↦ rw (e, cancel_future)
  | inr (w, e) ↦ rw (e, cancel_future)
]
lapse-slots (abandons k) p = elim (Option-cases (find_waiter k p.granted)) [
  | inl e ↦ rw (e, abandon)
  | inr (w, e) ↦ rw (e, abandon)
]

pub lapse_all-slots : (ls : List Lapse) (p : Pool) → (lapse_all ls p).slots ≡ p.slots
unfolding lapse_all
lapse_all-slots [] p = refl
lapse_all-slots (l ∷ ls) p = lapse_all-slots ls (lapse l p) ∙ lapse-slots l p

-- The pool after an eviction.
abbrev pub evicted : Config → Slot → Pool → Pool
evicted c v p = lapse_all (c.meanwhile v.container) (without v p)

-- How `make_room` goes on a table without a thread twice.
pub make_room-cases :
    (c : Config) (p : Pool)
    → Distinct (threads p.slots)
    → ((make_room c p ≡ none) × (has_room c p ≡ false) × (victim p.slots ≡ none))
      ⊎ ((make_room c p ≡ some p) × (has_room c p ≡ true))
      ⊎ ((v : Slot) × (make_room c p ≡ some (evicted c v p))
          × (find_slot v.thread p.slots ≡ some v)
          × (is_busy v ≡ false))
unfolding make_room evict_idle
make_room-cases c p d = elim (Bool-cases (has_room c p)) [
  | inl e ↦ inr (inl (rw (e, make_room), e))
  | inr e ↦ elim (Option-cases (victim p.slots)) [
    | inl n ↦ inl (rw (e, n, make_room, evict_idle), e, n)
    | inr (v, f) ↦
        let found = find_slot-victim p.slots v d f in
        elim (drop_slot-cases v.thread p) [
          | inl (g, _) ↦ absurd (ground arith)
          | inr (s, g, _, q) ↦
              let same : s ≡ v = ground arith in
              inr
                (inr (v, rw (e, f, make_room, evict_idle, q, same), found, victim-idle p.slots v f))
        ]
  ]
]
