-- ===== src/Db/Jobs.antt =====
-- mailmux/src/db/jobs.rs: each query as a function of the tables and of the transaction's `now()`.
-- A result that is `err` leaves the tables as they were: the caller keeps the old value.
use mailmux.Base.{
  Bool, List, Option, Result, String, [], any, count_where, err, false, find?, if◌then◌else◌, leb,
  nat_eq, none, not, ok, option_eq, some, string_eq, suc, true, update_where, ℕ, ◌&&◌, ◌++◌, ◌==◌,
  ◌||◌, ◌∷◌,
}
use mailmux.Db.{
  Db, EventRow, Json, ProcessorJob, Status, abandoned, completed, event_at, failed, has_event_id,
  has_id, i32_max, in_progress, is_job_of, job_at, pending,
}

pub data AttemptsUpdate : Type 0 where
  keep increment : AttemptsUpdate

abbrev pub is_in_progress : Status → Bool
is_in_progress in_progress = true
is_in_progress _ = false

abbrev pub is_terminal : Status → Bool
is_terminal completed = true
is_terminal abandoned = true
is_terminal _ = false

-- next_retry_at IS NOT NULL AND next_retry_at <= now()
abbrev pub is_due : ℕ → Option ℕ → Bool
is_due now none = false
is_due now (some t) = leb t now

-- status = 'pending' OR (status = 'failed' AND …)
abbrev pub status_runnable : ℕ → Status → Option ℕ → Bool
status_runnable now pending retry = true
status_runnable now failed retry = is_due now retry
status_runnable now _ retry = false

unfoldable pub is_runnable : ℕ → ProcessorJob → Bool
is_runnable now j = status_runnable now j.status j.next_retry_at

abbrev pub new_job : ℕ → ℕ → ℕ → String → ProcessorJob
new_job now id event_id name = record {
  id = id;
  event_id = event_id;
  processor_name = name;
  status = pending;
  attempts = 0;
  last_error = none;
  next_retry_at = none;
  created_at = now;
  updated_at = now;
  output = none;
}

-- INSERT … ON CONFLICT (event_id, processor_name) DO NOTHING RETURNING id. The sequence gives its
-- next value also to a row that conflicts.
unfoldable pub insert_job : ℕ → ℕ → String → Db → Option ℕ × Db
insert_job now event_id name db =
    if any (is_job_of event_id name) db.jobs
    then (none, record db { next_job = suc db.next_job })
    else (
      some db.next_job,
      record db {
        jobs = db.jobs ++ new_job now db.next_job event_id name ∷ [];
        next_job = suc db.next_job;
      },
    )

-- The foreign key is checked on the row that was inserted.
unfoldable pub create_job : ℕ → ℕ → String → Db → Result (Option ℕ × Db)
create_job now event_id name db =
    if any (is_job_of event_id name) db.jobs || any (has_event_id event_id) db.events
    then ok (insert_job now event_id name db)
    else err "insert on processor_jobs violates foreign key constraint"

-- INSERT … SELECT unnest(names) … ON CONFLICT DO NOTHING RETURNING id, processor_name
unfoldable pub insert_jobs : ℕ → ℕ → List String → Db → List (ℕ × String) × Db
insert_jobs now event_id [] db = ([], db)
insert_jobs now event_id (name ∷ names) db =
    let (id, after) = insert_job now event_id name db in
    let (rest, last) = insert_jobs now event_id names after in
    (elim id [ none ↦ rest | some id ↦ (id, name) ∷ rest ], last)

abbrev pub mark_dispatched : ℕ → ℕ → Db → Db
mark_dispatched now event_id db = record db {
  events =
      update_where (has_event_id event_id) (λ e. record e { dispatched_at = some now }) db.events;
}

abbrev pub dispatch_marked : ℕ → ℕ → List String → Db → Option ℕ → List (ℕ × String) × Db
dispatch_marked now event_id names db (some t) = ([], db)
dispatch_marked now event_id names db none =
    let (inserted, after) = insert_jobs now event_id names db in
    (inserted, mark_dispatched now event_id after)

abbrev pub dispatch_row : ℕ → ℕ → List String → Db → Option EventRow → List (ℕ × String) × Db
dispatch_row now event_id names db none = ([], db)
dispatch_row now event_id names db (some row) =
    dispatch_marked now event_id names db row.dispatched_at

-- One transaction, behind the row lock of the event: it reads the marker, inserts and marks.
unfoldable pub register_event_dispatch : ℕ → ℕ → List String → Db → List (ℕ × String) × Db
register_event_dispatch now event_id names db =
    dispatch_row now event_id names db (event_at event_id db)

-- attempts + 1 in a column of type INT
abbrev pub overflows : (ProcessorJob → Bool) → Db → Bool
overflows p db = any (λ j. p j && leb i32_max j.attempts) db.jobs

unfoldable pub update_job_status :
    ℕ → ℕ → Status → Option String → Option ℕ → Option Json → AttemptsUpdate → Db → Result Db
update_job_status now id status error next_retry_at output keep db = ok (record db {
  jobs =
      update_where (has_id id)
        (λ j. record j {
          status = status;
          last_error = error;
          next_retry_at = next_retry_at;
          output = output;
          updated_at = now;
        })
        db.jobs;
})
update_job_status now id status error next_retry_at output increment db =
    if overflows (has_id id) db
    then err "integer out of range"
    else ok (record db {
      jobs =
          update_where (has_id id)
            (λ j. record j {
              status = status;
              attempts = suc j.attempts;
              last_error = error;
              next_retry_at = next_retry_at;
              output = output;
              updated_at = now;
            })
            db.jobs;
    })

abbrev pub replayable : ℕ → ProcessorJob → Bool
replayable id j = has_id id j && not (is_in_progress j.status)

abbrev pub replayed : ℕ → ProcessorJob → ProcessorJob
replayed now j = record j {
  status = in_progress;
  attempts = 1;
  last_error = none;
  next_retry_at = none;
  output = none;
  updated_at = now;
}

-- `rows_affected() == 1`, with the tables after the update.
unfoldable pub reset_and_claim_job_for_replay : ℕ → ℕ → Db → Bool × Db
reset_and_claim_job_for_replay now id db = (
  count_where (replayable id) db.jobs == 1,
  record db { jobs = update_where (replayable id) (replayed now) db.jobs },
)

unfoldable pub reset_job_for_replay : ℕ → ℕ → Db → Db
reset_job_for_replay now id db = record db {
  jobs =
      update_where (has_id id)
        (λ j. record j {
          status = pending;
          attempts = 0;
          last_error = none;
          next_retry_at = none;
          output = none;
          updated_at = now;
        })
        db.jobs;
}

unfoldable pub get_job_by_id : ℕ → Db → Option ProcessorJob
unfolding job_at
get_job_by_id id db = job_at id db

unfoldable pub get_job_by_event_and_processor : ℕ → String → Db → Option ProcessorJob
get_job_by_event_and_processor event_id name db = find? (is_job_of event_id name) db.jobs
