-- ===== src/Sandbox/Pool/Slots.antt =====
-- The table of slots under its writes.
-- Code: `self._slot` of src/app/sandbox/pool.py.
use fin_agent_platform.Prelude.{
  ℕ, suc, ◌≤◌, ◌≡◌, ◌≢◌, inl, inr, true, false, none, some, List, [], ◌∷◌, ◌==◌, length, contains,
  Distinct, map, Bool-cases, Option-cases, All, arith,
}
use fin_agent_platform.Sandbox.Pool.{Slot, find_slot, put_slot, remove_slot, is_busy, victim}

abbrev pub threads : List Slot → List ℕ
threads l = map (λ (s : Slot). s.thread) l

pub length-remove_slot :
    (t : ℕ) (l : List Slot) (s : Slot)
    → find_slot t l ≡ some s
    → suc (length (remove_slot t l)) ≡ length l
unfolding find_slot remove_slot
length-remove_slot t [] s h = ground arith
length-remove_slot t (x ∷ l) s h = elim (Bool-cases (x.thread == t)) [
  | inl e ↦ ground arith
  | inr e ↦ ground (arith, length-remove_slot t l s (ground arith))
]

pub length-remove_slot-le : (t : ℕ) (l : List Slot) → length (remove_slot t l) ≤ length l
unfolding remove_slot
length-remove_slot-le t [] = omega arith
length-remove_slot-le t (x ∷ l) = ground (arith, length-remove_slot-le t l)

pub length-put_slot-le : (s : Slot) (l : List Slot) → length (put_slot s l) ≤ suc (length l)
unfolding put_slot
length-put_slot-le s [] = omega arith
length-put_slot-le s (x ∷ l) = ground (arith, length-put_slot-le s l)

pub length-put_slot :
    (s b : Slot) (l : List Slot) → find_slot s.thread l ≡ some b → length (put_slot s l) ≡ length l
unfolding find_slot put_slot
length-put_slot s b [] h = ground arith
length-put_slot s b (x ∷ l) h = elim (Bool-cases (x.thread == s.thread)) [
  | inl e ↦ ground arith
  | inr e ↦ ground (arith, length-put_slot s b l (ground arith))
]

pub find_slot-thread : (t : ℕ) (l : List Slot) (s : Slot) → find_slot t l ≡ some s → s.thread ≡ t
unfolding find_slot
find_slot-thread t [] s h = ground arith
find_slot-thread t (x ∷ l) s h = ground (arith, find_slot-thread t l s)

pub find_slot_self :
    (t : ℕ) (l : List Slot) (s : Slot) → find_slot t l ≡ some s → find_slot s.thread l ≡ some s
find_slot_self t l s e = simp (find_slot-thread t l s e) e

pub find_slot-put_slot : (s : Slot) (l : List Slot) → find_slot s.thread (put_slot s l) ≡ some s
unfolding find_slot put_slot
find_slot-put_slot s [] = ground arith
find_slot-put_slot s (x ∷ l) = ground (arith, find_slot-put_slot s l)

pub find_slot-put_slot_other :
    (t : ℕ) (s : Slot) (l : List Slot) → s.thread ≢ t → find_slot t (put_slot s l) ≡ find_slot t l
unfolding find_slot put_slot
find_slot-put_slot_other t s [] h = ground arith
find_slot-put_slot_other t s (x ∷ l) h = ground (arith, find_slot-put_slot_other t s l h)

pub find_slot-remove_slot_other :
    (t u : ℕ) (l : List Slot) → u ≢ t → find_slot t (remove_slot u l) ≡ find_slot t l
unfolding find_slot remove_slot
find_slot-remove_slot_other t u [] h = ground arith
find_slot-remove_slot_other t u (x ∷ l) h = ground (arith, find_slot-remove_slot_other t u l h)

contains-remove_slot :
    (a t : ℕ) (l : List Slot)
    → contains a (threads l) ≡ false
    → contains a (threads (remove_slot t l)) ≡ false
unfolding contains remove_slot
contains-remove_slot a t [] h = ground arith
contains-remove_slot a t (x ∷ l) h = ground (arith, contains-remove_slot a t l)

pub remove_slot-Distinct :
    (t : ℕ) (l : List Slot) → Distinct (threads l) → Distinct (threads (remove_slot t l))
unfolding remove_slot
remove_slot-Distinct t [] h = tt
remove_slot-Distinct t (x ∷ l) h =
    ground (arith, remove_slot-Distinct t l h.1, contains-remove_slot x.thread t l h.0)

contains-put_slot :
    (a : ℕ) (s : Slot) (l : List Slot)
    → s.thread ≢ a
    → contains a (threads l) ≡ false
    → contains a (threads (put_slot s l)) ≡ false
unfolding contains put_slot
contains-put_slot a s [] n h = ground arith
contains-put_slot a s (x ∷ l) n h = ground (arith, contains-put_slot a s l n)

pub put_slot-Distinct :
    (s : Slot) (l : List Slot) → Distinct (threads l) → Distinct (threads (put_slot s l))
unfolding put_slot contains
put_slot-Distinct s [] h = ground arith
put_slot-Distinct s (x ∷ l) h = elim (Bool-cases (x.thread == s.thread)) [
  | inl e ↦ ground arith
  | inr e ↦
      ground (arith, put_slot-Distinct s l h.1, contains-put_slot x.thread s l (ground arith) h.0)
]

-- What `min(idle)` takes is idle, and with each thread once it is what its thread finds.
pub victim-idle : (l : List Slot) (v : Slot) → victim l ≡ some v → is_busy v ≡ false
unfolding victim
victim-idle [] v h = ground arith
victim-idle (s ∷ l) v h = elim (Bool-cases (is_busy s)) [
  | inl e ↦ victim-idle l v (ground arith)
  | inr e ↦ elim (Option-cases (victim l)) [
    | inl n ↦ ground arith
    | inr (b, f) ↦ ground (arith, victim-idle l b f)
  ]
]

find_slot-contains :
    (t : ℕ) (l : List Slot) (s : Slot) → find_slot t l ≡ some s → contains t (threads l) ≡ true
unfolding find_slot contains
find_slot-contains t [] s h = ground arith
find_slot-contains t (x ∷ l) s h = ground (arith, find_slot-contains t l s)

pub find_slot-victim :
    (l : List Slot) (v : Slot)
    → Distinct (threads l)
    → victim l ≡ some v
    → find_slot v.thread l ≡ some v
unfolding victim find_slot
find_slot-victim [] v d h = ground arith
find_slot-victim (s ∷ l) v d h = elim (Option-cases (victim l)) [
  | inl n ↦ ground arith
  | inr (b, f) ↦
      let found = find_slot-victim l b d.1 f in
      let inside = find_slot-contains b.thread l b found in ground arith
]

-- No slot is idle exactly where there is no victim.
pub victim-none : (l : List Slot) → victim l ≡ none → All (λ (s : Slot). is_busy s ≡ true) l
unfolding victim
victim-none [] h = tt
victim-none (s ∷ l) h = ground (arith, victim-none l)
