-- ===== src/Examples/Logs.antt =====
-- The theorem on the event log, at a stream that keeps one event.
use fin_agent_platform.Prelude.{◌≡◌, refl, true, arith, some, List, [], ◌∷◌, text, filter}
use fin_agent_platform.Event.{Event, EventData, LoggedEvent, token_data, sandbox_ready}
use fin_agent_platform.Run.Log.{ArchiveRow, archive_row, is_after, read}
use fin_agent_platform.Run.Log.Complete.{
  Change, appends, expires, records_other, IsForeign, appended, after_changes, new_store,
  read-after_changes,
}
use fin_agent_platform.Examples.{decode, encode}

abbrev said : EventData → Event
said d = record { ts = 3; run_id = encode 7; path = []; data_ = d }

abbrev other_event : LoggedEvent
other_event = record {
  id = (5, 2);
  event = record { ts = 3; run_id = encode 8; path = []; data_ = sandbox_ready };
}

-- The table has a row of another run already.
abbrev rows : List ArchiveRow
rows = archive_row 8 (record other_event { id = (4, 0) }) ∷ []

abbrev changes : List Change
changes =
    appends (5, 0) (said sandbox_ready)
    ∷ appends (5, 1) (said (token_data (text "a")))
    ∷ expires
    ∷ records_other true other_event
    ∷ appends (6, 0) (said (token_data (text "b")))
    ∷ []

read-after_changes_example :
    read decode (encode 7) (some (5, 0)) (after_changes decode 1 changes (new_store rows))
    ≡ filter (is_after (some (5, 0))) (appended changes)
unfolding appended IsForeign filter
read-after_changes_example =
    read-after_changes decode (encode 7) 7 refl 1 changes (some (5, 0)) rows refl
      ((refl, (refl, tt)), ((refl, tt), (tt, tt)))
      ((refl, omega arith), ((refl, omega arith), ((refl, omega arith), tt)))
      (λ e. ground arith, tt) (omega arith)
