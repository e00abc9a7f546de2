-- ===== src/Task/Queue.antt =====
-- `TaskQueue` of src/app/task/queue.py, over one Redis stream and its consumer group.
-- Redis does what its manual says of the commands that the queue sends. An identifier of a message
-- is a number; `0-0` is 0. Times are in milliseconds. `held` is the set of the one consumer.
-- The stream is not trimmed below its oldest pending message: `max_length` keeps 10 000 of them.
pub mod Claim
pub mod Missed
pub mod Kept
pub mod Delivery
pub mod History
pub mod Flight
use fin_agent_platform.Prelude.{
  ℕ, zero, suc, ◌+◌, Bool, true, false, not, ◌&&◌, ◌||◌, Option, none, some, List, [], ◌∷◌, ◌++◌,
  ◌==◌, ltb, leb, if◌then◌else◌, length, take, contains, filter, map, Text,
}
use fin_agent_platform.Run.Executor.{RunTask}

-- A message of the stream.
pub record Message : Type 0 where
  pub id : ℕ
  pub task : RunTask

-- An entry of the pending list, with the time at which it was last delivered or claimed.
pub record PendingMessage : Type 0 where
  pub id : ℕ
  pub touched : ℕ

-- The stream, oldest message first; the group, if it is there, by the last message delivered and
-- what is not acknowledged, in the order of the identifiers; and the messages in the hands of the
-- consumer.
pub record Queue : Type 0 where
  pub stream : List Message
  pub has_group : Bool
  pub last_delivered : ℕ
  pub unacked : List PendingMessage
  pub held : List ℕ

pub record Limits : Type 0 where
  pub max_length : ℕ
  pub claim_idle : ℕ

abbrev pub empty_queue : Queue
empty_queue = record { stream = []; has_group = false; last_delivered = 0; unacked = []; held = [] }

-- `ensure_group`: `XGROUP CREATE … 0 MKSTREAM`, or nothing where the group is there.
unfoldable pub ensure_group : Queue → Queue
ensure_group q =
    if q.has_group then q else record q { has_group = true; last_delivered = 0; unacked = [] }

-- `publish`: `XADD`, which assigns the identifier.
unfoldable pub publish : ℕ → RunTask → Queue → Queue
publish id task q = record q { stream = q.stream ++ record { id = id; task = task } ∷ [] }

-- `held.add` and `held.discard`
abbrev pub hold : ℕ → Queue → Queue
hold id q = record q { held = if contains id q.held then q.held else id ∷ q.held }

-- The time of a message in the pending list starts again.
unfoldable pub renew : ℕ → ℕ → List PendingMessage → List PendingMessage
renew id now [] = []
renew id now (p ∷ ps) =
    (if p.id == id then record { id = id; touched = now } else p) ∷ renew id now ps

abbrev pub is_idle : Limits → ℕ → PendingMessage → Bool
is_idle l now p = leb (p.touched + l.claim_idle) now

-- `XAUTOCLAIM … COUNT 1` from a position of the pending list: it looks at ten entries at most, takes
-- the first idle one, and answers it with the position to go on from, `0-0` at the end of the list.
abbrev pub next_id : List PendingMessage → ℕ
next_id [] = 0
next_id (p ∷ ps) = p.id

unfoldable pub scan : Limits → ℕ → ℕ → List PendingMessage → Option ℕ × ℕ
scan l now attempts [] = (none, 0)
scan l now zero (p ∷ ps) = (none, p.id)
scan l now (suc attempts) (p ∷ ps) =
    let rest = scan l now attempts ps in if is_idle l now p then (some p.id, next_id ps) else rest

unfoldable pub from_id : ℕ → List PendingMessage → List PendingMessage
from_id start [] = []
from_id start (p ∷ ps) = if ltb p.id start then from_id start ps else p ∷ ps

unfoldable pub autoclaim : Limits → ℕ → ℕ → List PendingMessage → Option ℕ × ℕ
unfolding scan from_id
autoclaim l now start unacked = scan l now 10 (from_id start unacked)

-- What `_claim` comes to; `out_of_fuel` stands for a loop that goes on.
pub data Claimed : Type 0 where
  out_of_fuel nothing_idle : Claimed
  claimed : ℕ → Claimed

-- The loop of `_claim` with its cursor: a message of the own hands is passed over.
unfoldable pub claim_from : ℕ → Limits → ℕ → ℕ → Queue → Claimed × Queue
unfolding autoclaim renew
claim_from zero l now cursor q = (out_of_fuel, q)
claim_from (suc fuel) l now cursor q =
    let (found, following) = autoclaim l now cursor q.unacked in
    elim found [
      | none ↦ (nothing_idle, q)
      | some id ↦
          let taken : Queue = record q { unacked = renew id now q.unacked } in
          let again = claim_from fuel l now following taken in
          if not (contains id q.held)
          then (claimed id, hold id taken)
          else if following == 0
          then (nothing_idle, taken)
          else again
    ]

-- `_claim`
unfoldable pub claim_idle_message : Limits → ℕ → Queue → Claimed × Queue
unfolding claim_from
claim_idle_message l now q = claim_from (suc (length q.unacked)) l now 0 q

-- `XREADGROUP … COUNT 1 >`: the first message after the last one delivered.
unfoldable pub first_after : ℕ → List Message → Option Message
first_after n [] = none
first_after n (m ∷ ms) = if ltb n m.id then some m else first_after n ms

unfoldable pub read_new : ℕ → Queue → Option ℕ × Queue
unfolding first_after
read_new now q = elim (first_after q.last_delivered q.stream) [
  | none ↦ (none, q)
  | some m ↦ (
    some m.id,
    hold m.id (record q {
      last_delivered = m.id;
      unacked = q.unacked ++ record { id = m.id; touched = now } ∷ [];
    }),
  )
]

-- `reserve`: what is idle first, then what is new.
abbrev pub reserve_after : ℕ → Claimed × Queue → Option ℕ × Queue
reserve_after now (claimed id, q) = (some id, q)
reserve_after now (nothing_idle, q) = read_new now q
reserve_after now (out_of_fuel, q) = (none, q)

unfoldable pub reserve : Limits → ℕ → Queue → Option ℕ × Queue
unfolding claim_idle_message read_new
reserve l now q = reserve_after now (claim_idle_message l now q)

unfoldable pub remove_id : ℕ → List PendingMessage → List PendingMessage
remove_id id [] = []
remove_id id (p ∷ ps) = let rest = remove_id id ps in if p.id == id then rest else p ∷ rest

-- `ack`
unfoldable pub ack : ℕ → Queue → Queue
unfolding remove_id filter
ack id q = record q { unacked = remove_id id q.unacked; held = filter (λ x. not (x == id)) q.held }

-- `touch`: `XCLAIM … 0 JUSTID`
unfoldable pub touch : ℕ → ℕ → Queue → Queue
unfolding renew
touch id now q = record q { unacked = renew id now q.unacked }

-- `pending_count`
unfoldable pub pending_messages : Queue → ℕ
pending_messages q = if q.has_group then length q.unacked else 0

-- `XRANGE … min COUNT 1`: the first message from this identifier on.
unfoldable pub first_from : ℕ → List Message → List Message
first_from n [] = []
first_from n (m ∷ ms) = if ltb m.id n then first_from n ms else m ∷ []

-- `_holding_run_id`
unfoldable pub holding_run_id : List PendingMessage → List Message → List Text
unfolding first_from
holding_run_id [] stream = []
holding_run_id (p ∷ ps) stream =
    map (λ (m : Message). m.task.run_id) (first_from p.id stream) ++ holding_run_id ps stream

unfoldable pub messages_after : ℕ → List Message → List Message
messages_after n [] = []
messages_after n (m ∷ ms) = if ltb n m.id then m ∷ messages_after n ms else messages_after n ms

-- `_waiting_run_id`
unfoldable pub waiting_run_id : Limits → ℕ → List Message → List Text
unfolding messages_after
waiting_run_id l n stream =
    map (λ (m : Message). m.task.run_id) (take l.max_length (messages_after n stream))

-- `in_flight`; the union of two sets is the list of both.
unfoldable pub in_flight : Limits → Queue → List Text
unfolding holding_run_id waiting_run_id
in_flight l q =
    if q.has_group
    then holding_run_id (take l.max_length q.unacked) q.stream
      ++ waiting_run_id l q.last_delivered q.stream
    else []
