-- ===== src/Sandbox/Pool/Busy.antt =====
-- Who keeps a container, and what may end it.
-- Code: `SandboxPool` of src/app/sandbox/pool.py.
use fin_agent_platform.Prelude.{
  ℕ, ◌+◌, ◌≡◌, ◌≢◌, refl, ap, ◌∙◌, inl, inr, Bool, true, false, not, ◌&&◌, none, some, List, [],
  ◌∷◌, Distinct, Bool-cases, All, Option-cases, filter, ◌==◌, leb, contains, arith,
}
use fin_agent_platform.Sandbox.Pool.{
  Slot, Waiter, Config, Pool, find_slot, drop_slot, Grant, acquired, waiting, start_failed,
  take_slot, enqueue, acquire, find_waiter, give_back, start_granted, release, discard_thread,
  current, expire_lease, sweep, Op, acquires, resumes, lapses, releases, discards, looks, sweeps,
  closes, after_op, add_holder, drop_holder, is_long_idle, lapsed, drop_all, put_slot,
}
use fin_agent_platform.Sandbox.Pool.Cases.{lapse-slots}
use fin_agent_platform.Sandbox.Pool.Slots.{threads, put_slot-Distinct}
use fin_agent_platform.Sandbox.Pool.Holders.{
  Holds, held-is_busy, use-Holds, take_new-Holds, pump-Holds, drop_slot-keeps, drop_all-keeps,
  start_slot-Holds,
}

-- Whether an operation may take the container of `t` away from `h`.
unfoldable pub may_end : Config → ℕ → ℕ → Pool → Op → Bool
unfolding find_slot find_waiter
may_end c t h p (acquires w now alive started) = w.thread == t && not alive
may_end c t h p (resumes k now started) = elim (find_waiter k p.granted) [
  | none ↦ false
  | some w ↦ w.thread == t
]
may_end c t h p (lapses l) = false
may_end c t h p (releases thread holder now) = thread == t && holder == h
may_end c t h p (discards thread) = thread == t
may_end c t h p (looks thread now) = false
may_end c t h p (sweeps now) = elim (find_slot t p.slots) [
  | none ↦ false
  | some s ↦ leb (s.last_used + c.lease_timeout) now
]
may_end c t h p closes = true

module _ (c : Config) (now : ℕ) where
  pub threads-expire_lease : (l : List Slot) → threads (expire_lease c now l) ≡ threads l
  unfolding expire_lease
  threads-expire_lease [] = refl
  threads-expire_lease (s ∷ l) = ground (arith, threads-expire_lease l)

  find_slot-expire_lease :
      (t : ℕ) (l : List Slot) (s : Slot)
      → find_slot t l ≡ some s
      → find_slot t (expire_lease c now l) ≡ some (lapsed c now s)
  unfolding find_slot expire_lease
  find_slot-expire_lease t [] s e = ground arith
  find_slot-expire_lease t (x ∷ l) s e = elim (Bool-cases (x.thread == t)) [
    | inl f ↦ ground arith
    | inr f ↦ ground (arith, find_slot-expire_lease t l s (ground arith))
  ]

  others_of :
      (t : ℕ) (l : List Slot)
      → contains t (threads l) ≡ false
      → All (λ (s : Slot). s.thread ≢ t) (filter (is_long_idle c now) l)
  unfolding contains filter
  others_of t [] e = tt
  others_of t (x ∷ l) e = ground (arith, others_of t l (ground arith))

  stale_ne :
      (t : ℕ) (l : List Slot) (s : Slot)
      → Distinct (threads l)
      → find_slot t l ≡ some s
      → is_long_idle c now s ≡ false
      → All (λ (s : Slot). s.thread ≢ t) (filter (is_long_idle c now) l)
  unfolding find_slot contains filter
  stale_ne t [] s d e n = tt
  stale_ne t (x ∷ l) s d e n = elim (Bool-cases (x.thread == t)) [
    | inl f ↦
        let same : x ≡ s = ground arith in
        let rest = others_of t l (ground arith) in
        let live : is_long_idle c now x ≡ false = rw same n in rw live rest
    | inr f ↦ let rest = stale_ne t l s d.1 (ground arith) n in ground arith
  ]

  sweep-Holds :
      (t h k : ℕ) (p : Pool)
      → Distinct (threads p.slots)
      → (held : Holds t h k p.slots) → leb (held.slot.last_used + c.lease_timeout) now ≡ false
      → Holds t h k (sweep c now p).slots
  unfolding sweep filter
  sweep-Holds t h k p d held live =
      let all : List Slot = expire_lease c now p.slots in
      let same : lapsed c now held.slot ≡ held.slot = ground arith in
      let found : find_slot t all ≡ some held.slot =
        find_slot-expire_lease t p.slots held.slot held.found ∙ ap some same in
      let busy = held-is_busy h held.slot held.holder in
      let once : Distinct (threads all) = rw (threads-expire_lease p.slots) d in
      let others = stale_ne t all held.slot once found (ground arith) in
      let there : Holds t h k all = record {
        slot = held.slot;
        found = found;
        container = held.container;
        holder = held.holder;
      } in
      let (d', held') = drop_all-keeps t h k _ (record p { slots = all }) others once there in
      let swept : Pool = drop_all (filter (is_long_idle c now) all) (record p { slots = all }) in
      pump-Holds c t h k swept d' held'

contains-add_holder :
    (h j : ℕ) (l : List ℕ) → contains h l ≡ true → contains h (add_holder j l) ≡ true
unfolding contains
contains-add_holder h j l e = ground arith

contains-drop_holder :
    (h j : ℕ) (l : List ℕ) → h ≢ j → contains h l ≡ true → contains h (drop_holder j l) ≡ true
unfolding contains filter
contains-drop_holder h j [] n e = ground arith
contains-drop_holder h j (x ∷ l) n e = ground (arith, contains-drop_holder h j l)

module _ (c : Config) (t h k : ℕ) where
  enqueue-Holds :
      (w : Waiter) (r : Grant × Pool) → Holds t h k r.1.slots → Holds t h k (enqueue w r).1.slots
  enqueue-Holds w (waiting, p) held = held
  enqueue-Holds w (acquired x, p) held = held
  enqueue-Holds w (start_failed, p) held = held

  take_slot-Holds :
      (u j now : ℕ) (alive started : Bool) (p : Pool)
      → (u == t && not alive) ≡ false
      → Distinct (threads p.slots)
      → Holds t h k p.slots
      → Holds t h k (take_slot c u j now alive started p).1.slots
  unfolding take_slot
  take_slot-Holds u j now alive started p n d held = elim (Option-cases (find_slot u p.slots)) [
    | inl e ↦
        let other : u ≢ t = λ same. ground (arith, held.found) in
        rw (e, take_slot) (take_new-Holds c t h k u j now started p d other held)
    | inr (s, e) ↦ elim (Bool-cases alive) [
      | inl a ↦
          let keeps = contains-add_holder h j s.holder in
          rw (e, a, take_slot)
            (use-Holds t h k u now s (add_holder j s.holder) p.slots e (λ _. keeps) held)
      | inr a ↦
          let other : u ≢ t = ground arith in
          let (d', held') = drop_slot-keeps t h k u p other d held in
          rw (e, a, take_slot)
            (take_new-Holds c t h k u j now started (drop_slot u p) d' other held')
    ]
  ]

  start_granted-Holds :
      (j now : ℕ) (started : Bool) (p : Pool)
      → may_end c t h p (resumes j now started) ≡ false
      → Holds t h k p.slots
      → Holds t h k (start_granted j now started p).1.slots
  unfolding may_end start_granted
  start_granted-Holds j now started p n held = elim (Option-cases (find_waiter j p.granted)) [
    | inl e ↦ rw (e, start_granted) held
    | inr (w, e) ↦
        let other : w.thread ≢ t = ground arith in
        rw (e, start_granted)
          (start_slot-Holds t h k w.thread w.holder now started (give_back j p) other held)
  ]

  release-Holds :
      (u j now : ℕ) (p : Pool)
      → (u == t && j == h) ≡ false
      → Distinct (threads p.slots)
      → Holds t h k p.slots
      → Holds t h k (release c u j now p).slots
  unfolding release filter
  release-Holds u j now p n d held = elim (Option-cases (find_slot u p.slots)) [
    | inl e ↦ rw (e, release) (pump-Holds c t h k p d held)
    | inr (s, e) ↦
        let left : List ℕ = drop_holder j s.holder in
        let kept =
          use-Holds t h k u now s left p.slots e
            (λ same. contains-drop_holder h j s.holder (ground arith)) held in
        let once = put_slot-Distinct (record s { holder = left; last_used = now }) p.slots d in
        let used : Slot = record s { holder = left; last_used = now } in
        rw (e, release) (pump-Holds c t h k (record p { slots = put_slot used p.slots }) once kept)
  ]

  current-Holds :
      (u now : ℕ) (p : Pool) → Holds t h k p.slots → Holds t h k (current u now p).1.slots
  unfolding current
  current-Holds u now p held = elim (Option-cases (find_slot u p.slots)) [
    | inl e ↦ rw (e, current) held
    | inr (s, e) ↦ rw (e, current) (use-Holds t h k u now s s.holder p.slots e (λ _ m. m) held)
  ]

  -- As long as no operation that may end it is run, the holder of a container keeps it: eviction,
  -- another thread's calls, another holder's release and a sweep before the lease ends leave it.
  pub after_op-Holds :
      (o : Op) (p : Pool)
      → may_end c t h p o ≡ false
      → Distinct (threads p.slots)
      → Holds t h k p.slots
      → Holds t h k (after_op c o p).slots
  unfolding after_op may_end acquire discard_thread
  after_op-Holds (acquires w now alive started) p n d held =
      enqueue-Holds w _ (take_slot-Holds w.thread w.holder now alive started p n d held)
  after_op-Holds (resumes j now started) p n d held = start_granted-Holds j now started p n held
  after_op-Holds (lapses l) p n d held = rw (lapse-slots l p) held
  after_op-Holds (releases u j now) p n d held = release-Holds u j now p n d held
  after_op-Holds (discards u) p n d held =
      let (d', held') = drop_slot-keeps t h k u p (ground arith) d held in
      pump-Holds c t h k (drop_slot u p) d' held'
  after_op-Holds (looks u now) p n d held = current-Holds u now p held
  after_op-Holds (sweeps now) p n d held =
      sweep-Holds c now t h k p d held (ground (arith, held.found))
  after_op-Holds closes p n d held = ground arith
