-- ===== src/Sandbox/Pool/Leak.antt =====
-- Two waiters of one thread: the second start writes over the first slot.
-- Code: the end of `acquire`, and `_start`, of src/app/sandbox/pool.py.
use fin_agent_platform.Prelude.{ℕ, suc, ◌≡◌, ◌≢◌, refl, true, false, some, length, contains, arith}
use fin_agent_platform.Sandbox.Pool.{
  Slot, Waiter, Pool, find_slot, new_slot, start_slot, find_waiter, start_granted,
}
use fin_agent_platform.Sandbox.Pool.Slots.{length-put_slot, find_slot-put_slot}

-- The thread finds a new container, the pool counts as many as before and Docker runs one more, and
-- the old holder is not among the new ones.
pub record IsLeak (t h : ℕ) (p q : Pool) : Type 0 where
  pub slot : Slot
  pub found : find_slot t q.slots ≡ some slot
  pub container : slot.container ≡ p.next_container
  pub forgotten : contains h slot.holder ≡ false
  pub counted : length q.slots ≡ length p.slots
  pub running : length q.running ≡ suc (length p.running)

-- A waiter that is let through starts a container even where its thread has one by then: that one
-- still runs and is no longer counted, and its holder is forgotten.
pub start_granted-IsLeak :
    (t h k now : ℕ) (s : Slot) (w : Waiter) (p : Pool)
    → find_slot t p.slots ≡ some s
    → contains h s.holder ≡ true
    → find_waiter k p.granted ≡ some w
    → w.thread ≡ t
    → h ≢ w.holder
    → IsLeak t h p (start_granted k now true p).1
unfolding start_granted start_slot contains
start_granted-IsLeak t h k now s w p found held waits same other =
    let new : Slot = new_slot w.thread p.next_container w.holder now in
    let at_w : find_slot w.thread p.slots ≡ some s = rw same found in
    rw (waits, start_granted)
      (record {
        slot = new;
        found = rw (← same) (find_slot-put_slot new p.slots);
        container = refl;
        forgotten = ground arith;
        counted = length-put_slot new s p.slots at_w;
        running = refl;
      })
