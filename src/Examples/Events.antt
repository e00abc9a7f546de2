-- ===== src/Examples/Events.antt =====
-- The theorems on the replay, at two increments of one text and an end.
use fin_agent_platform.Prelude.{ℕ, ◌≡◌, refl, some, List, [], ◌∷◌, text}
use fin_agent_platform.Event.{EventData, token_data, run_finished, LoggedEvent, type_of, same_path}
use fin_agent_platform.Run.Replay.{collapse, mergeable, merge}
use fin_agent_platform.Run.Replay.Faithful.{IsFaithful, collapse-IsFaithful}
use fin_agent_platform.Examples.{usage}

abbrev logged : ℕ → EventData → LoggedEvent
logged n d = record { id = (n, 0); event = record { ts = n; run_id = []; path = []; data_ = d } }

abbrev events : List LoggedEvent
events =
    logged 1 (token_data (text "ab"))
    ∷ logged 2 (token_data (text "c"))
    ∷ logged 3 (run_finished usage)
    ∷ []

abbrev joined : List LoggedEvent
joined = logged 2 (token_data (text "abc")) ∷ logged 3 (run_finished usage) ∷ []

collapse-events : collapse events ≡ some joined
unfolding collapse mergeable type_of same_path merge
collapse-events = refl

collapse-IsFaithful_example :
    (out : List LoggedEvent) × (collapse events ≡ some out) × IsFaithful events out
collapse-IsFaithful_example = collapse-IsFaithful events
