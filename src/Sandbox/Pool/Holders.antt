-- ===== src/Sandbox/Pool/Holders.antt =====
-- The holder of a container under the parts of the pool's operations.
-- Code: `_take`, `_start`, `_pump` and `_discard` of src/app/sandbox/pool.py.
use fin_agent_platform.Prelude.{
  ℕ, ◌≡◌, ◌≢◌, inl, inr, Bool, true, false, some, List, [], ◌∷◌, length, Distinct, Bool-cases, All,
  Option-cases, ◌==◌, contains, arith, zero, suc, List-cases,
}
use fin_agent_platform.Sandbox.Pool.{
  Slot, Config, Pool, find_slot, put_slot, remove_slot, is_busy, drop_slot, make_room, pump_from,
  pump, grant_next, start_slot, take_new, drop_all,
}
use fin_agent_platform.Sandbox.Pool.Slots.{
  threads, find_slot-thread, find_slot-put_slot, find_slot-put_slot_other,
  find_slot-remove_slot_other, remove_slot-Distinct,
}
use fin_agent_platform.Sandbox.Pool.Cases.{
  evicted, lapse_all-slots, without, drop_slot-cases, make_room-cases,
}

-- The container `k` is that of thread `t`, and `h` is among its holders.
pub record Holds (t h k : ℕ) (l : List Slot) : Type 0 where
  pub slot : Slot
  pub found : find_slot t l ≡ some slot
  pub container : slot.container ≡ k
  pub holder : contains h slot.holder ≡ true

contains-length : (h : ℕ) (l : List ℕ) → contains h l ≡ true → (length l == 0) ≡ false
unfolding contains
contains-length h [] e = ground arith
contains-length h (x ∷ l) e = ground arith

pub held-is_busy : (h : ℕ) (s : Slot) → contains h s.holder ≡ true → is_busy s ≡ true
held-is_busy h s e = rw (contains-length h s.holder e)

remove-Holds : (t h k u : ℕ) (l : List Slot) → u ≢ t → Holds t h k l → Holds t h k (remove_slot u l)
remove-Holds t h k u l n q = record {
  slot = q.slot;
  found = rw (find_slot-remove_slot_other t u l n) q.found;
  container = q.container;
  holder = q.holder;
}

put-Holds :
    (t h k : ℕ) (s : Slot) (l : List Slot)
    → s.thread ≢ t
    → Holds t h k l
    → Holds t h k (put_slot s l)
put-Holds t h k s l n q = record {
  slot = q.slot;
  found = rw (find_slot-put_slot_other t s l n) q.found;
  container = q.container;
  holder = q.holder;
}

-- A slot that is used again, by whatever holders, keeps the ones that were there.
pub use-Holds :
    (t h k u now : ℕ) (s : Slot) (hs : List ℕ) (l : List Slot)
    → find_slot u l ≡ some s
    → (u ≡ t → contains h s.holder ≡ true → contains h hs ≡ true)
    → Holds t h k l
    → Holds t h k (put_slot (record s { holder = hs; last_used = now }) l)
use-Holds t h k u now s hs l e keeps q =
    let new : Slot = record s { holder = hs; last_used = now } in
    let is_u = find_slot-thread u l s e in
    elim (Bool-cases (u == t)) [
      | inl same ↦
          let p : u ≡ t = ground arith in
          let one : s ≡ q.slot = ground (arith, q.found) in
          let at_t : new.thread ≡ t = ground arith in
          record {
            slot = new;
            found = simp (← at_t) (find_slot-put_slot new l);
            container = ground (arith, q.container);
            holder = keeps p (rw one q.holder);
          }
      | inr other ↦ put-Holds t h k new l (ground arith) q
    ]

idle-ne :
    (t h k : ℕ) (v : Slot) (l : List Slot)
    → find_slot v.thread l ≡ some v
    → is_busy v ≡ false
    → Holds t h k l
    → v.thread ≢ t
idle-ne t h k v l e idle q same =
    let one : v ≡ q.slot = ground (arith, q.found) in
    let busy = held-is_busy h q.slot q.holder in ground arith

make_room-Holds :
    (c : Config) (t h k : ℕ) (p q : Pool)
    → Distinct (threads p.slots)
    → make_room c p ≡ some q
    → Holds t h k p.slots
    → Holds t h k q.slots
make_room-Holds c t h k p q d e held = elim (make_room-cases c p d) [
  | inl (stuck, _, _) ↦ ground arith
  | inr (inl (f, _)) ↦ let same : p ≡ q = ground arith in rw (← same) held
  | inr (inr (v, f, found, idle)) ↦
      let same : evicted c v p ≡ q = ground arith in
      rw (← same, lapse_all-slots (c.meanwhile v.container) (without v p))
        (remove-Holds t h k v.thread p.slots (idle-ne t h k v p.slots found idle held) held)
]

pub start_slot-Holds :
    (t h k u j now : ℕ) (started : Bool) (p : Pool)
    → u ≢ t
    → Holds t h k p.slots
    → Holds t h k (start_slot u j now started p).1.slots
unfolding start_slot
start_slot-Holds t h k u j now false p n q = q
start_slot-Holds t h k u j now true p n q = put-Holds t h k _ p.slots n q

pub take_new-Holds :
    (c : Config) (t h k u j now : ℕ) (started : Bool) (p : Pool)
    → Distinct (threads p.slots)
    → u ≢ t
    → Holds t h k p.slots
    → Holds t h k (take_new c u j now started p).1.slots
unfolding take_new
take_new-Holds c t h k u j now started p d n held = elim (Option-cases (make_room c p)) [
  | inl e ↦ rw (e, take_new) held
  | inr (q, e) ↦
      rw (e, take_new)
        (start_slot-Holds t h k u j now started q n (make_room-Holds c t h k p q d e held))
]

pub make_room-Distinct :
    (c : Config) (p q : Pool)
    → Distinct (threads p.slots)
    → make_room c p ≡ some q
    → Distinct (threads q.slots)
make_room-Distinct c p q d e = elim (make_room-cases c p d) [
  | inl (stuck, _, _) ↦ ground arith
  | inr (inl (f, _)) ↦ let same : p ≡ q = ground arith in rw (← same) d
  | inr (inr (v, f, _, _)) ↦
      let same : evicted c v p ≡ q = ground arith in
      rw (← same, lapse_all-slots (c.meanwhile v.container) (without v p))
        (remove_slot-Distinct v.thread p.slots d)
]

pub grant_next-slots : (p : Pool) → (grant_next p).slots ≡ p.slots
unfolding grant_next contains
grant_next-slots p = elim (List-cases p.queue) [
  | inl e ↦ rw e
  | inr (w, q, e) ↦ elim (Bool-cases (contains w.ticket p.cancelled)) [
    | inl x ↦ rw (e, x)
    | inr x ↦ rw (e, x)
  ]
]

pump_from-Holds :
    (c : Config) (t h k n : ℕ) (p : Pool)
    → Distinct (threads p.slots)
    → Holds t h k p.slots
    → Holds t h k (pump_from c n p).slots
unfolding pump_from
pump_from-Holds c t h k zero p d held = held
pump_from-Holds c t h k (suc n) p d held = elim (List-cases p.queue) [
  | inl e ↦ rw (e, pump_from) held
  | inr (w, l, e) ↦ elim (Option-cases (make_room c p)) [
    | inl m ↦ rw (e, m, pump_from) held
    | inr (q, m) ↦
        let kept : Holds t h k (grant_next q).slots =
          rw (grant_next-slots q) (make_room-Holds c t h k p q d m held) in
        let once : Distinct (threads (grant_next q).slots) =
          rw (grant_next-slots q) (make_room-Distinct c p q d m) in
        elim (Bool-cases (grant_next q).raised) [
          | inl x ↦ rw (e, m, x, pump_from) kept
          | inr x ↦ rw (e, m, x, pump_from) (pump_from-Holds c t h k n (grant_next q) once kept)
        ]
  ]
]

pub pump-Holds :
    (c : Config) (t h k : ℕ) (p : Pool)
    → Distinct (threads p.slots)
    → Holds t h k p.slots
    → Holds t h k (pump c p).slots
unfolding pump
pump-Holds c t h k p d held =
    pump_from-Holds c t h k (length p.queue) (record p { raised = false }) d held

-- Another thread's container goes, or none.
pub drop_slot-keeps :
    (t h k u : ℕ) (p : Pool)
    → u ≢ t
    → Distinct (threads p.slots)
    → Holds t h k p.slots
    → Distinct (threads (drop_slot u p).slots) × Holds t h k (drop_slot u p).slots
drop_slot-keeps t h k u p n d held = elim (drop_slot-cases u p) [
  | inl (_, e) ↦ rw e (d, held)
  | inr (s, _, same, e) ↦
      rw (e, same) (remove_slot-Distinct u p.slots d, remove-Holds t h k u p.slots n held)
]

pub drop_all-keeps :
    (t h k : ℕ) (l : List Slot) (p : Pool)
    → All (λ (s : Slot). s.thread ≢ t) l
    → Distinct (threads p.slots)
    → Holds t h k p.slots
    → Distinct (threads (drop_all l p).slots) × Holds t h k (drop_all l p).slots
unfolding drop_all
drop_all-keeps t h k [] p a d held = (d, held)
drop_all-keeps t h k (s ∷ l) p a d held =
    let (d', held') = drop_slot-keeps t h k s.thread p a.0 d held in
    drop_all-keeps t h k l (drop_slot s.thread p) a.1 d' held'
