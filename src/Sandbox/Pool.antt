-- ===== src/Sandbox/Pool.antt =====
-- `SandboxPool` of src/app/sandbox/pool.py. A method under the lock is one operation, `acquire` is
-- `acquire` up to the wait and `start_granted` or `abandon` after it. What needs no lock runs between
-- the operations and while `_evict_idle` waits for a container to stop: the cancellation of a future
-- by its `wait_for`, and the `_abandon` that follows it. What runs during another wait of an operation is
-- as good as before the operation, or after it, since it reads what those change on one side only.
-- A thread identifier is the number of its hex text of fixed width, which orders alike. Times are
-- numbers on one scale. Whether a container still runs, and whether a new one starts, is what
-- Docker answers: an argument. The positions that `_announce` reports change no state.
pub mod Slots
pub mod Cases
pub mod Places
pub mod Bounds
pub mod Settled
pub mod Holders
pub mod Busy
pub mod Leak
use fin_agent_platform.Prelude.{
  ℕ, zero, suc, ◌+◌, ◌-◌, Bool, true, false, not, ◌&&◌, ◌||◌, Option, none, some, List, [], ◌∷◌,
  ◌++◌, ◌==◌, ltb, leb, if◌then◌else◌, length, contains, filter,
}

-- `_Slot`, with the key that it stands under.
pub record Slot : Type 0 where
  pub thread : ℕ
  pub container : ℕ
  pub holder : List ℕ
  pub last_used : ℕ

-- `_Waiter`, with the local variables of the `acquire` that waits on it.
pub record Waiter : Type 0 where
  pub ticket : ℕ
  pub thread : ℕ
  pub holder : ℕ

-- What runs without the lock: the future of a waiter is cancelled, its `acquire` goes on to `_abandon`.
pub data Lapse : Type 0 where
  cancels : ℕ → Lapse
  abandons : ℕ → Lapse

-- `meanwhile` is the schedule: what runs while `_evict_idle` waits for that container to stop.
pub record Config : Type 0 where
  pub max_container : ℕ
  pub idle_timeout : ℕ
  pub lease_timeout : ℕ
  pub meanwhile : ℕ → List Lapse

-- The fields of the pool. `granted` are the waiters whose future is done and whose `acquire` has not
-- run on yet, `cancelled` those whose future is cancelled, `running` the containers that Docker runs,
-- `next_container` the next new one. `raised` is whether a `_pump` has ended in an exception.
pub record Pool : Type 0 where
  pub slots : List Slot
  pub queue : List Waiter
  pub granted : List Waiter
  pub cancelled : List ℕ
  pub reserved : ℕ
  pub raised : Bool
  pub running : List ℕ
  pub next_container : ℕ

abbrev pub empty_pool : Pool
empty_pool = record {
  slots = [];
  queue = [];
  granted = [];
  cancelled = [];
  reserved = 0;
  raised = false;
  running = [];
  next_container = 0;
}

-- `slot.busy`
abbrev pub is_busy : Slot → Bool
is_busy s = not (length s.holder == 0)

-- `self._slot.get(…)`
unfoldable pub find_slot : ℕ → List Slot → Option Slot
find_slot t [] = none
find_slot t (s ∷ l) = if s.thread == t then some s else find_slot t l

-- `self._slot[…] = …`
unfoldable pub put_slot : Slot → List Slot → List Slot
put_slot new [] = new ∷ []
put_slot new (s ∷ l) =
    let rest = put_slot new l in if s.thread == new.thread then new ∷ l else s ∷ rest

-- `self._slot.pop(…, None)`
unfoldable pub remove_slot : ℕ → List Slot → List Slot
remove_slot t [] = []
remove_slot t (s ∷ l) = let rest = remove_slot t l in if s.thread == t then l else s ∷ rest

-- `holder.add`, `holder.discard`
abbrev pub add_holder : ℕ → List ℕ → List ℕ
add_holder h hs = if contains h hs then hs else h ∷ hs

abbrev pub drop_holder : ℕ → List ℕ → List ℕ
drop_holder h hs = filter (λ x. not (x == h)) hs

-- `_has_room`
abbrev pub has_room : Config → Pool → Bool
has_room c p = ltb (length p.slots + p.reserved) c.max_container

-- `_discard`
unfoldable pub drop_slot : ℕ → Pool → Pool
unfolding find_slot remove_slot filter
drop_slot t p = elim (find_slot t p.slots) [
  | none ↦ p
  | some s ↦ record p {
    slots = remove_slot t p.slots;
    running = filter (λ x. not (x == s.container)) p.running;
  }
]

-- `min(idle)`, on the pairs of last use and thread.
abbrev pub comes_first : Slot → Slot → Bool
comes_first s b =
    ltb s.last_used b.last_used || (s.last_used == b.last_used && leb s.thread b.thread)

abbrev pub oldest : Slot → Option Slot → Slot
oldest s none = s
oldest s (some b) = if comes_first s b then s else b

unfoldable pub victim : List Slot → Option Slot
victim [] = none
victim (s ∷ l) = let best = victim l in if is_busy s then best else some (oldest s best)

unfoldable pub find_waiter : ℕ → List Waiter → Option Waiter
find_waiter k [] = none
find_waiter k (w ∷ l) = if w.ticket == k then some w else find_waiter k l

unfoldable pub remove_waiter : ℕ → List Waiter → List Waiter
remove_waiter k [] = []
remove_waiter k (w ∷ l) = let rest = remove_waiter k l in if w.ticket == k then l else w ∷ rest

-- `self._reserved -= 1`, with the future that is done for.
abbrev pub give_back : ℕ → Pool → Pool
give_back k p = record p { reserved = p.reserved - 1; granted = remove_waiter k p.granted }

-- `_abandon`, after a timeout or a cancellation.
unfoldable pub abandon : ℕ → Pool → Pool
unfolding find_waiter remove_waiter
abandon k p = elim (find_waiter k p.granted) [
  | none ↦ record p { queue = remove_waiter k p.queue }
  | some w ↦ give_back k p
]

-- `future.cancel()`, which does nothing to a future that is done.
unfoldable pub cancel_future : ℕ → Pool → Pool
unfolding find_waiter
cancel_future k p = elim (find_waiter k p.granted) [
  | none ↦ record p { cancelled = k ∷ p.cancelled }
  | some w ↦ p
]

unfoldable pub lapse : Lapse → Pool → Pool
unfolding abandon cancel_future
lapse (cancels k) p = cancel_future k p
lapse (abandons k) p = abandon k p

unfoldable pub lapse_all : List Lapse → Pool → Pool
unfolding lapse
lapse_all [] p = p
lapse_all (l ∷ ls) p = lapse_all ls (lapse l p)

-- `_evict_idle`; `none` is its `False`.
unfoldable pub evict_idle : Config → Pool → Option Pool
unfolding victim drop_slot lapse_all
evict_idle c p = elim (victim p.slots) [
  | none ↦ none
  | some s ↦ some (lapse_all (c.meanwhile s.container) (drop_slot s.thread p))
]

-- `self._has_room() or await self._evict_idle()`
unfoldable pub make_room : Config → Pool → Option Pool
unfolding evict_idle
make_room c p = if has_room c p then some p else evict_idle c p

-- `self._reserved += 1` and `self._queue.popleft().future.set_result(None)`: an `IndexError` where the
-- queue has become empty, an `InvalidStateError` where the future is cancelled already.
unfoldable pub grant_next : Pool → Pool
unfolding contains
grant_next p = elim p.queue [
  | [] ↦ record p { reserved = p.reserved + 1; raised = true }
  | w ∷ q ↦
      if contains w.ticket p.cancelled
      then record p { reserved = p.reserved + 1; queue = q; raised = true }
      else record p { reserved = p.reserved + 1; queue = q; granted = p.granted ++ w ∷ [] }
]

-- The loop of `_pump`, on fuel: each turn takes one from the queue, so its length is enough.
unfoldable pub pump_from : Config → ℕ → Pool → Pool
unfolding make_room grant_next
pump_from c zero p = p
pump_from c (suc n) p = elim p.queue [
  | [] ↦ p
  | w ∷ q ↦ elim (make_room c p) [
    | none ↦ p
    | some p' ↦ elim (grant_next p').raised [
      | true ↦ grant_next p'
      | false ↦ pump_from c n (grant_next p')
    ]
  ]
]

-- `_pump`
unfoldable pub pump : Config → Pool → Pool
unfolding pump_from
pump c p = pump_from c (length p.queue) (record p { raised = false })

-- What `acquire` comes to: a container, a place in the queue, or the `ContainerError` of the start.
pub data Grant : Type 0 where
  acquired : ℕ → Grant
  waiting start_failed : Grant

abbrev pub new_slot : ℕ → ℕ → ℕ → ℕ → Slot
new_slot thread container holder now = record {
  thread = thread;
  container = container;
  holder = holder ∷ [];
  last_used = now;
}

-- `_start`; `started` is whether `docker run` succeeds.
unfoldable pub start_slot : ℕ → ℕ → ℕ → Bool → Pool → Grant × Pool
unfolding put_slot
start_slot thread holder now started p =
    if started
    then (
      acquired p.next_container,
      record p {
        slots = put_slot (new_slot thread p.next_container holder now) p.slots;
        running = p.next_container ∷ p.running;
        next_container = p.next_container + 1;
      },
    )
    else (start_failed, p)

-- The end of `_take`: a new container, or none while there is no room.
unfoldable pub take_new : Config → ℕ → ℕ → ℕ → Bool → Pool → Grant × Pool
unfolding make_room start_slot
take_new c thread holder now started p = elim (make_room c p) [
  | none ↦ (waiting, p)
  | some p' ↦ start_slot thread holder now started p'
]

-- `_take`; `alive` is what the probe of the thread's container answers.
unfoldable pub take_slot : Config → ℕ → ℕ → ℕ → Bool → Bool → Pool → Grant × Pool
unfolding find_slot put_slot take_new drop_slot contains
take_slot c thread holder now alive started p = elim (find_slot thread p.slots) [
  | none ↦ take_new c thread holder now started p
  | some s ↦
      if alive
      then (
        acquired s.container,
        record p {
          slots =
              put_slot (record s { holder = add_holder holder s.holder; last_used = now }) p.slots;
        },
      )
      else take_new c thread holder now started (drop_slot thread p)
]

abbrev pub enqueue : Waiter → Grant × Pool → Grant × Pool
enqueue w (waiting, p) = (waiting, record p { queue = p.queue ++ w ∷ [] })
enqueue w (acquired n, p) = (acquired n, p)
enqueue w (start_failed, p) = (start_failed, p)

-- `acquire`, up to its wait.
unfoldable pub acquire : Config → Waiter → ℕ → Bool → Bool → Pool → Grant × Pool
unfolding take_slot
acquire c w now alive started p = enqueue w (take_slot c w.thread w.holder now alive started p)

-- `acquire`, after its wait, on a future that is done. Any other ticket does not run on.
unfoldable pub start_granted : ℕ → ℕ → Bool → Pool → Grant × Pool
unfolding find_waiter remove_waiter start_slot
start_granted k now started p = elim (find_waiter k p.granted) [
  | none ↦ (waiting, p)
  | some w ↦ start_slot w.thread w.holder now started (give_back k p)
]

-- `release`
unfoldable pub release : Config → ℕ → ℕ → ℕ → Pool → Pool
unfolding find_slot put_slot pump filter
release c thread holder now p = elim (find_slot thread p.slots) [
  | none ↦ pump c p
  | some s ↦
      let left : Slot = record s { holder = drop_holder holder s.holder; last_used = now } in
      pump c (record p { slots = put_slot left p.slots })
]

-- `discard`
unfoldable pub discard_thread : Config → ℕ → Pool → Pool
unfolding drop_slot pump
discard_thread c thread p = pump c (drop_slot thread p)

-- `current`
unfoldable pub current : ℕ → ℕ → Pool → Option ℕ × Pool
unfolding find_slot put_slot
current thread now p = elim (find_slot thread p.slots) [
  | none ↦ (none, p)
  | some s ↦
      (some s.container, record p { slots = put_slot (record s { last_used = now }) p.slots })
]

-- `_expire_lease`, on one slot; `last_used <= now - timeout` without the subtraction.
abbrev pub lapsed : Config → ℕ → Slot → Slot
lapsed c now s =
    if is_busy s && leb (s.last_used + c.lease_timeout) now then record s { holder = [] } else s

unfoldable pub expire_lease : Config → ℕ → List Slot → List Slot
expire_lease c now [] = []
expire_lease c now (s ∷ l) = lapsed c now s ∷ expire_lease c now l

abbrev pub is_long_idle : Config → ℕ → Slot → Bool
is_long_idle c now s = not (is_busy s) && leb (s.last_used + c.idle_timeout) now

-- The loop of `sweep` over the stale slots.
unfoldable pub drop_all : List Slot → Pool → Pool
unfolding drop_slot
drop_all [] p = p
drop_all (s ∷ l) p = drop_all l (drop_slot s.thread p)

-- `sweep`
unfoldable pub sweep : Config → ℕ → Pool → Pool
unfolding expire_lease drop_all pump filter
sweep c now p =
    let slots = expire_lease c now p.slots in
    pump c (drop_all (filter (is_long_idle c now) slots) (record p { slots = slots }))

-- `aclose`, after the sweeper has stopped.
unfoldable pub aclose : Pool → Pool
unfolding drop_all
aclose p = drop_all p.slots (record p { queue = [] })

-- A container that `running_sandbox` reports, and whether the workspace of its thread is there.
pub record Left : Type 0 where
  pub thread : ℕ
  pub container : ℕ
  pub has_workspace : Bool

abbrev pub adopted : Left → ℕ → Slot
adopted f now = record { thread = f.thread; container = f.container; holder = []; last_used = now }

unfoldable pub reclaim_one : Left → ℕ → Pool → Pool
unfolding find_slot put_slot filter
reclaim_one f now p = elim (find_slot f.thread p.slots) [
  | some s ↦ p
  | none ↦
      if f.has_workspace
      then record p { slots = put_slot (adopted f now) p.slots }
      else record p { running = filter (λ x. not (x == f.container)) p.running }
]

-- `reclaim`
unfoldable pub reclaim : List Left → ℕ → Pool → Pool
unfolding reclaim_one
reclaim [] now p = p
reclaim (f ∷ l) now p = reclaim l now (reclaim_one f now p)

-- The operations of the pool, but for `reclaim`, which the broker runs once, before any other.
pub data Op : Type 0 where
  acquires : Waiter → ℕ → Bool → Bool → Op
  resumes : ℕ → ℕ → Bool → Op
  lapses : Lapse → Op
  releases : ℕ → ℕ → ℕ → Op
  discards : ℕ → Op
  looks : ℕ → ℕ → Op
  sweeps : ℕ → Op
  closes : Op

unfoldable pub after_op : Config → Op → Pool → Pool
unfolding acquire start_granted lapse release discard_thread current sweep aclose
after_op c (acquires w now alive started) p = (acquire c w now alive started p).1
after_op c (resumes k now started) p = (start_granted k now started p).1
after_op c (lapses l) p = lapse l p
after_op c (releases thread holder now) p = release c thread holder now p
after_op c (discards thread) p = discard_thread c thread p
after_op c (looks thread now) p = (current thread now p).1
after_op c (sweeps now) p = sweep c now p
after_op c closes p = aclose p

unfoldable pub after_ops : Config → List Op → Pool → Pool
after_ops c [] p = p
after_ops c (o ∷ os) p = after_ops c os (after_op c o p)
