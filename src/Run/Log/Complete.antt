-- ===== src/Run/Log/Complete.antt =====
-- No event is lost by trimming or expiry: `append` and `read` of src/app/run/log.py with the table
-- of src/app/run/archive.py.
use mathlib.Core.Path.{subst}
use mathlib.Core.List.{append_assoc, append-nil, map-append}
use fin_agent_platform.Prelude.{
  ℕ, zero, suc, ◌-◌, ◌≡◌, ◌≢◌, Bool, arith, refl, ap, sym, ◌∙◌, true, false, Option, some, List, [],
  ◌∷◌, ◌++◌, map, Text, filter, length, All, All-map,
}
use fin_agent_platform.Event.{Event, LoggedEvent}
use fin_agent_platform.Run.Log.{
  ArchiveRow, EventId, EventStore, id_lt, pack, archive_row, has_row, record_event, drop_oldest,
  append, expire, replay, is_after, head_id, read,
}
use fin_agent_platform.Run.Log.Pack.{FitsBits}
use fin_agent_platform.Run.Log.Rows.{
  Fits, is_own, has_row-own, replayed-own, own-append, own-foreign, fresh_row, zip-All, All-take,
  by_seq-rows, decode-rows, filter-rows, filter-Fits, Fits-head,
}
use fin_agent_platform.Run.Log.Slices.{
  IsIncreasing, is_between, All-drop, before_rest, filter-IsIncreasing, slices_join,
}

-- What happens to the log of a run and to the table that it shares with the others: an event is
-- appended under the identifier that Redis gives it, the stream expires, or an event of another run
-- is recorded, or fails to be.
pub data Change : Type 0 where
  appends : EventId → Event → Change
  expires : Change
  records_other : Bool → LoggedEvent → Change

unfoldable pub appended : List Change → List LoggedEvent
appended [] = []
appended (appends id event ∷ cs) = record { id = id; event = event } ∷ appended cs
appended (expires ∷ cs) = appended cs
appended (records_other written e ∷ cs) = appended cs

-- What is recorded for others is of another run.
unfoldable pub IsForeign : (Text → Option ℕ) → ℕ → List Change → Type 0
IsForeign parse i [] = Unit
IsForeign parse i (appends id event ∷ cs) = IsForeign parse i cs
IsForeign parse i (expires ∷ cs) = IsForeign parse i cs
IsForeign parse i (records_other written e ∷ cs) =
    (parse e.event.run_id ≢ some i) × IsForeign parse i cs

-- Every insertion of an event of this run succeeds here.
unfoldable pub after_changes : (Text → Option ℕ) → ℕ → List Change → EventStore → EventStore
unfolding append record_event
after_changes parse max_length [] s = s
after_changes parse max_length (appends id event ∷ cs) s =
    after_changes parse max_length cs (append parse max_length true id event s).1
after_changes parse max_length (expires ∷ cs) s = after_changes parse max_length cs (expire s)
after_changes parse max_length (records_other written e ∷ cs) s =
    after_changes parse max_length cs
      (record s { archive = record_event parse written e s.archive })

-- An event of this run, whose sequence number fits its bits.
abbrev pub IsOf : Text → LoggedEvent → Type 0
IsOf run e = (e.event.run_id ≡ run) × FitsBits e.id

-- A stream without events, beside a table.
abbrev pub new_store : List ArchiveRow → EventStore
new_store rows = record { stream = []; archive = rows }

-- The table has all of the history among its rows, the stream its end.
record IsFull (i : ℕ) (history : List LoggedEvent) (s : EventStore) : Type 0 where
  rows : filter (is_own i) s.archive ≡ map (archive_row i) history
  older : List LoggedEvent
  split : history ≡ older ++ s.stream

drop_oldest-suffix :
    (n : ℕ) (xs : List LoggedEvent) → (older : List LoggedEvent) × (xs ≡ older ++ drop_oldest n xs)
drop_oldest-suffix zero xs = ([], refl)
drop_oldest-suffix (suc n) [] = ([], refl)
drop_oldest-suffix (suc n) (x ∷ xs) =
    let (older, e) = drop_oldest-suffix n xs in (x ∷ older, ap (λ l. x ∷ l) e)

own_row :
    (i : ℕ) (e : LoggedEvent) → filter (is_own i) (archive_row i e ∷ []) ≡ archive_row i e ∷ []
unfolding filter
own_row i e = ground arith

module _ (parse : Text → Option ℕ) (run : Text) (i : ℕ) (p : parse run ≡ some i)
    (max_length : ℕ) where
  append-IsFull :
      (id : EventId) (event : Event) (history : List LoggedEvent) (s : EventStore)
      → IsOf run (record { id = id; event = event })
      → All (λ e. FitsBits e.id × (id_lt e.id id ≡ true)) history
      → IsFull i history s
      → IsFull i
          (history ++ record { id = id; event = event } ∷ [])
          (append parse max_length true id event s).1
  unfolding append record_event
  append-IsFull id event history s mine before full =
      let logged : LoggedEvent = record { id = id; event = event } in
      let (dropped, e) =
        drop_oldest-suffix (length (s.stream ++ logged ∷ []) - max_length)
          (s.stream ++ logged ∷ []) in
      let known : parse event.run_id ≡ some i = ap parse mine.0 ∙ p in
      let fresh : has_row i (pack id) s.archive ≡ false =
        has_row-own i (pack id) s.archive ∙ rw full.rows (fresh_row i id history mine.1 before) in
      record {
        rows =
            rw (known, record_event)
              (rw fresh (
                own-append i s.archive (archive_row i logged ∷ [])
                ∙ rw (full.rows, own_row i logged)
                    (sym (map-append (archive_row i) history (logged ∷ [])))));
        older = full.older ++ dropped;
        split =
            ap (λ l. l ++ logged ∷ []) full.split
            ∙ append_assoc full.older s.stream (logged ∷ [])
            ∙ ap (λ l. full.older ++ l) e
            ∙ sym (append_assoc full.older dropped _);
      }

  after_changes-IsFull :
      (cs : List Change) (history : List LoggedEvent) (s : EventStore)
      → IsIncreasing (history ++ appended cs)
      → All (IsOf run) (history ++ appended cs)
      → IsForeign parse i cs
      → IsFull i history s
      → IsFull i (history ++ appended cs) (after_changes parse max_length cs s)
  unfolding appended after_changes IsForeign
  after_changes-IsFull [] history s h mine foreign full =
      subst (λ l. IsFull i l s) (sym (append-nil history)) full
  after_changes-IsFull (appends id event ∷ cs) history s h mine foreign full =
      let logged : LoggedEvent = record { id = id; event = event } in
      let assoc = append_assoc history (logged ∷ []) (appended cs) in
      let before =
        zip-All (λ e. FitsBits e.id) (λ e. id_lt e.id id ≡ true) history
          (All-map (IsOf run) _ history (λ e m. m.1)
            (All-take (IsOf run) history (logged ∷ appended cs) mine))
          (before_rest history logged (appended cs) h) in
      subst
        (λ l.
          IsFull i l
            (after_changes parse max_length cs (append parse max_length true id event s).1))
        assoc
        (after_changes-IsFull cs (history ++ logged ∷ []) _ (subst IsIncreasing (sym assoc) h)
          (subst (All (IsOf run)) (sym assoc) mine) foreign
          (append-IsFull id event history s
            (All-drop (IsOf run) history (logged ∷ appended cs) mine).0 before full))
  after_changes-IsFull (expires ∷ cs) history s h mine foreign full =
      after_changes-IsFull cs history (expire s) h mine foreign
        (record { rows = full.rows; older = history; split = sym (append-nil history) })
  after_changes-IsFull (records_other written e ∷ cs) history s h mine foreign full =
      after_changes-IsFull cs history _ h mine foreign.1 (record {
        rows = own-foreign parse i written e s.archive foreign.0 ∙ full.rows;
        older = full.older;
        split = full.split;
      })

  read_of_full :
      (start : Option EventId) (history : List LoggedEvent) (s : EventStore)
      → IsFull i history s
      → IsIncreasing history
      → All (λ e. FitsBits e.id) history
      → Fits start
      → read parse run start s ≡ filter (is_after start) history
  unfolding read
  read_of_full start history s full h f fs =
      let live = filter (is_after start) s.stream in
      let split_fits : All (λ e. FitsBits e.id) (full.older ++ s.stream) =
        subst (All _) full.split f in
      let stop_fits =
        Fits-head live
          (filter-Fits (is_after start) s.stream (All-drop _ full.older s.stream split_fits)) in
      let between = is_between start (head_id live) in
      let archived : replay parse run start (head_id live) s.archive ≡ filter between history =
        rw (p, replay)
          (rw (
            replayed-own i start (head_id live) s.archive,
            full.rows,
            filter-rows i start (head_id live) history fs stop_fits f,
            by_seq-rows i (filter between history) (filter-Fits between history f)
                (filter-IsIncreasing between history h),
            decode-rows i (filter between history) (filter-Fits between history f),
          )) in
      ap (λ l. l ++ live) archived
      ∙ subst (λ l. filter between l ++ live ≡ filter (is_after start) l) (sym full.split)
          (slices_join start full.older s.stream (subst IsIncreasing full.split h))

  -- Whatever the stream has dropped by its `maxlen` or by expiring, and whatever is in the table or
  -- comes into it for other runs, `read` returns every event of the run after the cursor, once and in
  -- order, and no event of another run, given that the log of the run begins empty, the identifiers increase, that their sequence
  -- numbers fit 20 bits and that every insertion of them into the table succeeded.
  pub read-after_changes :
      (cs : List Change) (start : Option EventId) (rows : List ArchiveRow)
      → filter (is_own i) rows ≡ []
      → IsIncreasing (appended cs)
      → All (IsOf run) (appended cs)
      → IsForeign parse i cs
      → Fits start
      → read parse run start (after_changes parse max_length cs (new_store rows))
        ≡ filter (is_after start) (appended cs)
  read-after_changes cs start rows none_yet h mine foreign fs =
      read_of_full start (appended cs) _
        (after_changes-IsFull cs [] (new_store rows) h mine foreign
          (record { rows = none_yet; older = []; split = refl }))
        h (All-map (IsOf run) _ (appended cs) (λ e m. m.1) mine) fs
