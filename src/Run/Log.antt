-- ===== src/Run/Log.antt =====
-- The event log of one run: `EventLog.append`, `read` and `_ended` of src/app/run/log.py, over the
-- Redis stream of the run and the table of src/app/run/archive.py. Redis is used as documented: XADD
-- with an exact `maxlen` drops the oldest entries, an expired key is an empty stream, XRANGE gives
-- the entries after an exclusive start. An event identifier is its pair of numbers, so a cursor is
-- one that `parse_event_id` accepts. `parse` is `UUID(…)`.
pub mod Pack
pub mod Slices
pub mod Rows
pub mod Complete
use fin_agent_platform.Prelude.{
  ℕ, zero, suc, ◌+◌, ◌-◌, ◌*◌, ◌/◌, ◌%◌, Bool, true, false, not, ◌&&◌, ◌||◌, Option, none, some,
  List, [], ◌∷◌, ◌++◌, map, Text, ◌==◌, ltb, leb, if◌then◌else◌, length, filter,
}
use fin_agent_platform.Prelude.Bits.{shift_left}
use Prim.Native.Nat.{bit_or}
use fin_agent_platform.Event.{Event, EventType, LoggedEvent, type_of, is_terminal}

abbrev pub EventId : Type 0
EventId = ℕ × ℕ

-- `<` on identifiers, as Redis and Python's tuples order them.
abbrev pub id_lt : EventId → EventId → Bool
id_lt a b = ltb a.0 b.0 || (a.0 == b.0 && ltb a.1 b.1)

abbrev pub sequence_bit : ℕ
sequence_bit = 20

-- `pack`
unfoldable pub pack : EventId → ℕ
unfolding shift_left
pack (millisecond, sequence) = bit_or (shift_left millisecond sequence_bit) sequence

-- `unpack`: `>>` and the mask of the low bits.
unfoldable pub unpack : ℕ → EventId
unfolding shift_left
unpack seq = (seq / shift_left 1 sequence_bit, seq % shift_left 1 sequence_bit)

-- `RunEventRecord`, a row of `run_events`; `ts` is in milliseconds.
pub record ArchiveRow : Type 0 where
  pub run_id : ℕ
  pub seq : ℕ
  pub type : EventType
  pub payload : Event
  pub ts : ℕ

-- The stream of one run, and the table with the rows of all runs.
pub record EventStore : Type 0 where
  pub stream : List LoggedEvent
  pub archive : List ArchiveRow

abbrev pub archive_row : ℕ → LoggedEvent → ArchiveRow
archive_row run e = record {
  run_id = run;
  seq = pack e.id;
  type = type_of e.event.data_;
  payload = e.event;
  ts = e.event.ts;
}

abbrev pub has_row : ℕ → ℕ → List ArchiveRow → Bool
has_row run seq [] = false
has_row run seq (r ∷ t) = (r.run_id == run && r.seq == seq) || has_row run seq t

-- `record`: `on_conflict_do_nothing`. A failed insertion, `written = false`, is logged and ignored.
unfoldable pub record_event :
    (Text → Option ℕ) → Bool → LoggedEvent → List ArchiveRow → List ArchiveRow
unfolding pack type_of
record_event parse written e t = elim (parse e.event.run_id) [
  | none ↦ t
  | some run ↦ if has_row run (pack e.id) t || not written then t else t ++ archive_row run e ∷ []
]

-- `maxlen`, exact: the oldest entries go.
abbrev pub drop_oldest : ℕ → List LoggedEvent → List LoggedEvent
drop_oldest zero t = t
drop_oldest (suc n) [] = []
drop_oldest (suc n) (e ∷ t) = drop_oldest n t

abbrev pub trim : ℕ → List LoggedEvent → List LoggedEvent
trim max_length t = drop_oldest (length t - max_length) t

-- `append`; Redis assigns `id`.
unfoldable pub append :
    (Text → Option ℕ) → ℕ → Bool → EventId → Event → EventStore → LoggedEvent × EventStore
unfolding record_event
append parse max_length written id event s =
    let logged : LoggedEvent = record { id = id; event = event } in
    (
      logged,
      record {
        stream = trim max_length (s.stream ++ logged ∷ []);
        archive = record_event parse written logged s.archive;
      },
    )

-- The key expires.
abbrev pub expire : EventStore → EventStore
expire s = record s { stream = [] }

-- `ORDER BY seq`
unfoldable pub insert_by_seq : ArchiveRow → List ArchiveRow → List ArchiveRow
insert_by_seq r [] = r ∷ []
insert_by_seq r (q ∷ t) =
    let rest = insert_by_seq r t in if leb r.seq q.seq then r ∷ q ∷ t else q ∷ rest

unfoldable pub by_seq : List ArchiveRow → List ArchiveRow
unfolding insert_by_seq
by_seq [] = []
by_seq (r ∷ t) = insert_by_seq r (by_seq t)

abbrev pub seq_after : Option EventId → ℕ → Bool
seq_after none seq = true
seq_after (some id) seq = ltb (pack id) seq

abbrev pub seq_before : Option EventId → ℕ → Bool
seq_before none seq = true
seq_before (some id) seq = ltb seq (pack id)

-- `_decode` of archive.py
abbrev pub decode_row : ArchiveRow → LoggedEvent
decode_row r = record { id = unpack r.seq; event = r.payload }

abbrev pub is_replayed : ℕ → Option EventId → Option EventId → ArchiveRow → Bool
is_replayed run start stop r = r.run_id == run && seq_after start r.seq && seq_before stop r.seq

-- `replay`
unfoldable pub replay :
    (Text → Option ℕ) → Text → Option EventId → Option EventId → List ArchiveRow → List LoggedEvent
unfolding by_seq filter pack unpack
replay parse run_id start stop t = elim (parse run_id) [
  | none ↦ []
  | some run ↦ map decode_row (by_seq (filter (is_replayed run start stop) t))
]

abbrev pub is_after : Option EventId → LoggedEvent → Bool
is_after none e = true
is_after (some cursor) e = id_lt cursor e.id

abbrev pub head_id : List LoggedEvent → Option EventId
head_id [] = none
head_id (e ∷ t) = some e.id

-- `read`
unfoldable pub read : (Text → Option ℕ) → Text → Option EventId → EventStore → List LoggedEvent
unfolding replay filter
read parse run_id start s =
    let live = filter (is_after start) s.stream in
    replay parse run_id start (head_id live) s.archive ++ live

abbrev pub last_logged : List LoggedEvent → Option LoggedEvent
last_logged [] = none
last_logged (e ∷ []) = some e
last_logged (_ ∷ e ∷ t) = last_logged (e ∷ t)

-- `last`: the row with the largest `seq`.
unfoldable pub last_archived : (Text → Option ℕ) → Text → List ArchiveRow → Option LoggedEvent
unfolding replay
last_archived parse run_id t = last_logged (replay parse run_id none none t)

abbrev or_archived : Option LoggedEvent → Option LoggedEvent → Option LoggedEvent
or_archived none archived = archived
or_archived (some e) archived = some e

abbrev ended_at : EventId → Bool → Option LoggedEvent → Bool
ended_at cursor terminal none = terminal
ended_at cursor terminal (some e) = not (id_lt cursor e.id) && is_terminal (type_of e.event.data_)

-- `_ended`; without a cursor, `follow` passes `0-0`.
unfoldable pub ended : (Text → Option ℕ) → Text → EventId → Bool → EventStore → Bool
unfolding last_archived type_of is_terminal
ended parse run_id cursor terminal s =
    ended_at cursor terminal
      (or_archived (last_logged s.stream) (last_archived parse run_id s.archive))
