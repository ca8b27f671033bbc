-- ===== src/Db/Exclusion/Holding.antt =====
-- A job in progress stays in progress under every query of a task that does not execute it.
use mathlib.Core.Option.{some-injective}
use mailmux.Base.{
  Bool, Bool-cases, List, Option, String, [], any, ap, arith, find?, find?-append, find?-select,
  inl, inr, nat_eq, none, option_eq, refl, select, some, string_eq, true, ℕ, ◌++◌, ◌||◌, ◌∷◌, ◌≡◌,
}
use mailmux.Db.{
  Db, EventRow, ProcessorJob, event_at, has_event_id, has_id, in_progress, is_job_of, job_at,
}
use mailmux.Db.Emails.{upsert_mailbox_state}
use mailmux.Db.Events.{insert_email_with_event}
use mailmux.Db.Exclusion.{IsHeld, leaves_running, status_at, status_of}
use mailmux.Db.Housekeeping.{
  cleanup_old_events, delete_events, delete_jobless_events, delete_terminal_jobs, eligible_ids,
}
use mailmux.Db.Invariant.{IsValid}
use mailmux.Db.Jobs.{
  create_job, dispatch_marked, dispatch_row, insert_job, insert_jobs, is_runnable, new_job,
  register_event_dispatch,
}
use mailmux.Db.Queue.{abandon_queued_job, abandoned_for}
use mailmux.Db.Refinement.{queue-refines}
use mailmux.Db.Steps.{
  Query, abandons, after_query, claims, cleans_up, creates_job, deletes_events, deletes_jobs,
  execute, inserts_email, registers, replays, resets, updates, upserts_mailbox,
}
use mailmux.Db.View.{View, compare_and_swap, view}

-- What the lookup found is found in the longer table.
append-IsHeld :
    (jobs more : List ProcessorJob) (k : ℕ)
    → status_of (find? (has_id k) jobs) ≡ some in_progress
    → status_of (find? (has_id k) (jobs ++ more)) ≡ some in_progress
append-IsHeld jobs more k h = ground (arith, find?-append (has_id k) jobs more)

insert_job-IsHeld :
    (now event_id : ℕ) (name : String) (db : Db) (k : ℕ)
    → IsHeld db k
    → IsHeld (insert_job now event_id name db).1 k
unfolding insert_job status_at job_at
insert_job-IsHeld now event_id name db k h =
    ground (arith, append-IsHeld db.jobs (new_job now db.next_job event_id name ∷ []) k h)

insert_jobs-IsHeld :
    (now event_id : ℕ) (names : List String) (db : Db) (k : ℕ)
    → IsHeld db k
    → IsHeld (insert_jobs now event_id names db).1 k
unfolding insert_jobs
insert_jobs-IsHeld now event_id [] db k h = h
insert_jobs-IsHeld now event_id (name ∷ names) db k h =
    insert_jobs-IsHeld now event_id names (insert_job now event_id name db).1 k
      (insert_job-IsHeld now event_id name db k h)

register-IsHeld :
    (now event_id : ℕ) (names : List String) (db : Db) (k : ℕ)
    → IsHeld db k
    → IsHeld (register_event_dispatch now event_id names db).1 k
unfolding register_event_dispatch status_at job_at
register-IsHeld now event_id names db k h = go (event_at event_id db)
  where
    inserted : IsHeld (insert_jobs now event_id names db).1 k
    inserted = insert_jobs-IsHeld now event_id names db k h

    marked : (t : Option ℕ) → IsHeld (dispatch_marked now event_id names db t).1 k
    marked none = inserted
    marked (some t) = h

    go : (row : Option EventRow) → IsHeld (dispatch_row now event_id names db row).1 k
    go none = h
    go (some row) = marked row.dispatched_at

create_job-IsHeld :
    (now event_id : ℕ) (name : String) (db : Db) (k : ℕ)
    → IsHeld db k
    → IsHeld (after_query (λ r. r.1) db (create_job now event_id name db)) k
unfolding create_job
create_job-IsHeld now event_id name db k h =
    elim (Bool-cases
      (any (is_job_of event_id name) db.jobs || any (has_event_id event_id) db.events)) [
        | inl pass ↦ rw pass (insert_job-IsHeld now event_id name db k h)
        | inr fail ↦ rw fail h
      ]

abandon-IsHeld :
    (now id : ℕ) (reason : String) (db : Db) (k : ℕ)
    → IsValid db
    → IsHeld db k
    → IsHeld (abandon_queued_job now id reason db).1 k
unfolding status_at compare_and_swap is_runnable
abandon-IsHeld now id reason db k v h = ground (arith, entry, found)
  where
    entry :
        job_at k (abandon_queued_job now id reason db).1
        ≡ (compare_and_swap (is_runnable now) (abandoned_for now reason) id (view db)).1 k
    entry = ap (λ (p : Bool × View). p.1 k) (queue-refines now id reason db v).0

    found : k ≡ id → job_at k db ≡ job_at id db
    found e = ap (λ i. job_at i db) e

select-IsHeld :
    (q : ProcessorJob → Bool) (jobs : List ProcessorJob) (k : ℕ)
    → ((j : ProcessorJob) → j.status ≡ in_progress → q j ≡ true)
    → status_of (find? (has_id k) jobs) ≡ some in_progress
    → status_of (find? (has_id k) (select q jobs)) ≡ some in_progress
select-IsHeld q jobs k keeps h = go (find? (has_id k) jobs) refl h
  where
    go :
        (o : Option ProcessorJob)
        → find? (has_id k) jobs ≡ o
        → status_of o ≡ some in_progress
        → status_of (find? (has_id k) (select q jobs)) ≡ some in_progress
    go none e h = cc
    go (some j) e h = rw (find?-select (has_id k) q jobs j e (keeps j (some-injective _ _ h))) h

delete_terminal_jobs-IsHeld :
    (ids : List ℕ) (db : Db) (k : ℕ) → IsHeld db k → IsHeld (delete_terminal_jobs ids db) k
unfolding status_at job_at
delete_terminal_jobs-IsHeld ids db k h = select-IsHeld _ db.jobs k (λ j e. rw e (ground arith)) h

delete_jobless_events-IsHeld :
    (ids : List ℕ) (db : Db) (k : ℕ) → IsHeld db k → IsHeld (delete_jobless_events ids db) k
unfolding status_at job_at
delete_jobless_events-IsHeld ids db k h = h

cleanup-IsHeld :
    (now days : ℕ) (db : Db) (k : ℕ) → IsHeld db k → IsHeld (cleanup_old_events now days db) k
unfolding cleanup_old_events
cleanup-IsHeld now days db k h = go (eligible_ids now days db)
  where
    go : (ids : List ℕ) → IsHeld (delete_events ids db) k
    go [] = h
    go (id ∷ ids) =
        delete_jobless_events-IsHeld (id ∷ ids) (delete_terminal_jobs (id ∷ ids) db) k
          (delete_terminal_jobs-IsHeld (id ∷ ids) db k h)

-- A query of another task leaves every job in progress as it is.
pub execute-IsHeld :
    (now : ℕ) (q : Query) (db : Db) (k : ℕ)
    → leaves_running q ≡ true
    → IsValid db
    → IsHeld db k
    → IsHeld (execute now q db) k
unfolding execute
execute-IsHeld now (creates_job event_id name) db k l v h =
    create_job-IsHeld now event_id name db k h
execute-IsHeld now (registers event_id names) db k l v h = register-IsHeld now event_id names db k h
execute-IsHeld now (updates _ _ _ _ _ _) db k l v h = cc
execute-IsHeld now (claims _) db k l v h = cc
execute-IsHeld now (abandons id reason) db k l v h = abandon-IsHeld now id reason db k v h
execute-IsHeld now (replays _) db k l v h = cc
execute-IsHeld now (resets _) db k l v h = cc
execute-IsHeld now (inserts_email email event) db k l v h =
    unfold insert_email_with_event status_at job_at in ground arith
execute-IsHeld now (upserts_mailbox account mailbox validity last_seen) db k l v h =
    unfold upsert_mailbox_state status_at job_at in h
execute-IsHeld now (cleans_up days) db k l v h = cleanup-IsHeld now days db k h
execute-IsHeld now (deletes_jobs ids) db k l v h = delete_terminal_jobs-IsHeld ids db k h
execute-IsHeld now (deletes_events ids) db k l v h = delete_jobless_events-IsHeld ids db k h
