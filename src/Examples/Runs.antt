-- ===== src/Examples/Runs.antt =====
-- The theorems on runs, at the sample database.
use fin_agent_platform.Prelude.{
  ◌+◌, ◌≡◌, refl, ◌&&◌, none, some, List, [], ◌∷◌, ◌==◌, if◌then◌else◌, filter, length, map, ◌<◌,
  arith, ◌≢◌,
}
use fin_agent_platform.Prelude.Sql.{count_where}
use fin_agent_platform.Run.Pages.{list_by_thread, to_detail, in_thread, newest_first, insert_newest}
use fin_agent_platform.Run.Repository.{
  MemoryJobPayload, succeed, raised, integrity_error, start, set_running,
}
use fin_agent_platform.Run.Repository.Outbox.{IsOutbox, succeed-outcome}
use fin_agent_platform.Run.Repository.OutboxKept.{after-IsOutbox}
use fin_agent_platform.Run.Pages.Complete.{all_pages, all_pages_lem}
use fin_agent_platform.Schema.{add_tokens}
use fin_agent_platform.Run.Repository.Table.{find}
use fin_agent_platform.Run.Repository.Calls.{
  Call, starts_first, waits, resumes, succeeds, cancels, after, after_all, finals, finalizes,
}
use fin_agent_platform.Run.Repository.Lifecycle.{RowStep, after-RowStep}
use fin_agent_platform.Run.Repository.Finality.{is_live, open_at}
use fin_agent_platform.Run.Repository.History.{finals-balance, final_row_frozen}
use fin_agent_platform.Run.Repository.Tokens.{tokens_at, ledger}
use fin_agent_platform.Run.Repository.Ledger.{ledger-balance}
use fin_agent_platform.Run.Repository.Answers.{leg, start-leg, start-find}
use fin_agent_platform.Examples.{decode, encode, usage, ended_run, sample_db, sample_db-IsTable}
use mathlib.Core.Option

-- A leg that waits for approval, one that succeeds, and a cancellation that comes too late.
abbrev calls : List Call
calls =
    starts_first (encode 7)
    ∷ waits (encode 7) usage
    ∷ resumes (encode 7)
    ∷ starts_first (encode 7)
    ∷ succeeds (encode 7) usage none 30 2000
    ∷ cancels (encode 7) (some usage) 2001
    ∷ []

-- The succeeding call is the only one of them that ends the run.
finals_of_calls : finals decode 7 calls sample_db ≡ 1
unfolding finals finalizes count_where after
finals_of_calls = refl

after-RowStep_example :
    RowStep decode 7
      (find 7 sample_db.runs)
      (find 7 (after decode (starts_first (encode 7)) sample_db).runs)
      (starts_first (encode 7))
after-RowStep_example = after-RowStep decode (starts_first (encode 7)) 7 sample_db

finals-balance_example :
    finals decode 7 calls sample_db + open_at 7 (after_all decode calls sample_db)
    ≡ open_at 7 sample_db
finals-balance_example = finals-balance decode 7 calls sample_db sample_db-IsTable

find-ended : find 6 sample_db.runs ≡ some ended_run
unfolding find
find-ended = refl

final_row_frozen_example : find 6 (after_all decode calls sample_db).runs ≡ some ended_run
final_row_frozen_example = final_row_frozen decode 6 ended_run calls sample_db find-ended refl

ledger-balance_example :
    tokens_at 7 (after_all decode calls sample_db)
    ≡ add_tokens (tokens_at 7 sample_db) (ledger decode 7 calls sample_db)
ledger-balance_example = ledger-balance decode 7 calls sample_db sample_db-IsTable

start-leg_example : (start decode (encode 7) sample_db).0 ≡ leg (find 7 sample_db.runs)
start-leg_example = start-leg decode (encode 7) 7 sample_db sample_db-IsTable refl

start-find_example :
    find 8 (start decode (encode 7) sample_db).1.runs
    ≡ Option.map (λ r. if r.id == 7 && is_live r then set_running r else r) (find 8 sample_db.runs)
start-find_example = start-find decode (encode 7) 7 sample_db sample_db-IsTable refl 8

rows_fit : length (newest_first (filter (in_thread 1 9) sample_db.runs)) < 4
unfolding newest_first insert_newest filter
rows_fit = omega arith

-- Two pages, of two runs and of one, which were submitted at one time.
all_pages_lem_example :
    all_pages
      (λ cursor. list_by_thread encode decode (encode 1) (encode 9) cursor 2 sample_db)
      4
      none
    ≡ some (map (to_detail encode) (newest_first (filter (in_thread 1 9) sample_db.runs)))
all_pages_lem_example =
    all_pages_lem encode decode (encode 1) (encode 9) 1 9 1 sample_db sample_db-IsTable refl refl 4
      rows_fit

abbrev payload : MemoryJobPayload
payload = record { thread_id = encode 1; user_id = encode 9; messages = [] }

succeed-outcome_example :
    (succeed decode (encode 7) usage (some payload) 30 2000 sample_db).0 ≢ raised integrity_error
succeed-outcome_example =
    succeed-outcome decode (encode 7) usage (some payload) 30 2000 sample_db sample_db-IsTable tt

after-IsOutbox_example :
    IsOutbox (after decode (succeeds (encode 7) usage (some payload) 30 2000) sample_db)
after-IsOutbox_example =
    after-IsOutbox decode (succeeds (encode 7) usage (some payload) 30 2000) sample_db
      sample_db-IsTable tt
