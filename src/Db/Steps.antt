-- ===== src/Db/Steps.antt =====
-- Every query of mailmux/src/db/ and mailmux/src/housekeeping.rs that writes, as one step of the
-- tables. Each is one statement or one transaction of the source, so any interleaving of the
-- program's tasks (scheduler, replay, ingestion, cleanup) is a list of such steps. A pass of the
-- cleanup is one step, or its two deletes are steps of their own, with any ids, since other tasks may
-- write between the statements of its transaction.
use mailmux.Base.{List, Option, Result, String, [], err, ok, ℕ, ◌∷◌}
use mailmux.Db.{Db, Json, NewEmail, NewEvent, Status}
use mailmux.Db.Emails.{upsert_mailbox_state}
use mailmux.Db.Events.{insert_email_with_event}
use mailmux.Db.Housekeeping.{cleanup_old_events, delete_jobless_events, delete_terminal_jobs}
use mailmux.Db.Jobs.{
  AttemptsUpdate, create_job, register_event_dispatch, reset_and_claim_job_for_replay,
  reset_job_for_replay, update_job_status,
}
use mailmux.Db.Queue.{abandon_queued_job, claim_job}

pub data Query : Type 0 where
  creates_job : ℕ → String → Query
  registers : ℕ → List String → Query
  updates : ℕ → Status → Option String → Option ℕ → Option Json → AttemptsUpdate → Query
  claims : ℕ → Query
  abandons : ℕ → String → Query
  replays : ℕ → Query
  resets : ℕ → Query
  inserts_email : NewEmail → NewEvent → Query
  upserts_mailbox : String → String → ℕ → ℕ → Query
  cleans_up : ℕ → Query
  deletes_jobs : List ℕ → Query
  deletes_events : List ℕ → Query

-- A query that fails leaves the tables as they were.
abbrev pub after_query {ℓ} : {A : Type ℓ} → (A → Db) → Db → Result A → Db
after_query tables db (ok a) = tables a
after_query tables db (err e) = db

unfoldable pub execute : ℕ → Query → Db → Db
execute now (creates_job event_id name) db =
    after_query (λ r. r.1) db (create_job now event_id name db)
execute now (registers event_id names) db = (register_event_dispatch now event_id names db).1
execute now (updates id status error next output attempts) db =
    after_query (λ d. d) db (update_job_status now id status error next output attempts db)
execute now (claims id) db = after_query (λ r. r.1) db (claim_job now id db)
execute now (abandons id reason) db = (abandon_queued_job now id reason db).1
execute now (replays id) db = (reset_and_claim_job_for_replay now id db).1
execute now (resets id) db = reset_job_for_replay now id db
execute now (inserts_email email event) db = (insert_email_with_event now email event db).1
execute now (upserts_mailbox account mailbox validity last_seen) db =
    upsert_mailbox_state now account mailbox validity last_seen db
execute now (cleans_up days) db = cleanup_old_events now days db
execute now (deletes_jobs ids) db = delete_terminal_jobs ids db
execute now (deletes_events ids) db = delete_jobless_events ids db

-- A history: each query with the database's clock when it ran.
unfoldable pub execute_all : List (ℕ × Query) → Db → Db
execute_all [] db = db
execute_all ((now, q) ∷ qs) db = execute_all qs (execute now q db)
