-- ===== src/Tests/Queue.antt =====
-- The queue of jobs.
use mailmux.Base.{List, [], false, nat_eq, none, ok, option_eq, refl, some, string_eq, ℕ, ◌∷◌, ◌≡◌}
use mailmux.Db.{Db, EventRow, event_at}
use mailmux.Db.Dispatch.{IsDispatched, register-IsDispatched, register-register}
use mailmux.Db.Exclusion.{IsExclusive, Step, System, at_start, claim_won, then_step}
use mailmux.Db.Exclusion.Reachable.{Reach-IsExclusive}
use mailmux.Db.Integrity.{execute_all-IsValid}
use mailmux.Db.Invariant.{IsValid}
use mailmux.Db.Jobs.{
  insert_job, insert_jobs, is_runnable, register_event_dispatch, replayed,
  reset_and_claim_job_for_replay,
}
use mailmux.Db.Queue.{abandon_queued_job, abandoned_for, claim_job, claimed, get_runnable_jobs}
use mailmux.Db.Refinement.{claim_job-refines, is_idle, queue-refines, seen, seen_pair, spec_claim}
use mailmux.Db.Runnable.{IsNext, get_runnable_jobs-IsNext}
use mailmux.Db.Steps.{
  Query, claims, cleans_up, deletes_events, deletes_jobs, execute_all, registers, replays,
}
use mailmux.Db.View.{compare_and_swap, view}
use mailmux.Tests.Samples.{failed_job, sample_db, sample_db-IsValid, unrouted, waiting_job}

history : List (ℕ × Query)
history =
    (200, registers 2 ("logger" ∷ []))
    ∷ (201, claims 1)
    ∷ (300, cleans_up 0)
    ∷ (301, deletes_jobs (2 ∷ []))
    ∷ (302, replays 2)
    ∷ (303, deletes_events (2 ∷ []))
    ∷ []

execute_all-IsValid_example : IsValid (execute_all history sample_db)
execute_all-IsValid_example = execute_all-IsValid history sample_db sample_db-IsValid

claim_job-refines_example : seen (claim_job 200 2 sample_db) ≡ spec_claim 200 2 (view sample_db)
claim_job-refines_example = claim_job-refines 200 2 sample_db sample_db-IsValid

queue-refines_example :
    (seen_pair (abandon_queued_job 200 2 "gone" sample_db)
      ≡ compare_and_swap (is_runnable 200) (abandoned_for 200 "gone") 2 (view sample_db))
    × (seen_pair (reset_and_claim_job_for_replay 200 2 sample_db)
        ≡ compare_and_swap is_idle (replayed 200) 2 (view sample_db))
queue-refines_example = queue-refines 200 2 "gone" sample_db sample_db-IsValid

abbrev idle_system : System
idle_system = record { db = sample_db; running = [] }

abbrev claimed_db : Db
claimed_db = record sample_db { jobs = claimed 200 waiting_job ∷ failed_job ∷ [] }

abbrev busy_system : System
busy_system = record { db = claimed_db; running = 1 ∷ [] }

idle_system-IsExclusive : IsExclusive idle_system
idle_system-IsExclusive = record { valid = sample_db-IsValid; once = tt; held = tt }

claim_first : Step idle_system busy_system
unfolding claim_job is_runnable nat_eq
claim_first = claim_won 200 1 idle_system claimed_db refl

Reach-IsExclusive_example : IsExclusive busy_system
Reach-IsExclusive_example =
    Reach-IsExclusive {s = idle_system} {t = busy_system} idle_system-IsExclusive
      (then_step {t = idle_system} at_start claim_first)

-- The job that is executed is not claimed again, by the scheduler or by a replay.
second_claim :
    (claim_job 210 1 claimed_db ≡ ok (false, claimed_db))
    × (reset_and_claim_job_for_replay 210 1 claimed_db ≡ (false, claimed_db))
unfolding claim_job reset_and_claim_job_for_replay is_runnable nat_eq
second_claim = (refl, refl)

unrouted_row : EventRow
unrouted_row = record { event = unrouted; dispatched_at = none }

unrouted_row-found : event_at 2 sample_db ≡ some unrouted_row
unfolding event_at nat_eq unrouted_row
unrouted_row-found = refl

unrouted_row-unmarked : unrouted_row.dispatched_at ≡ none
unfolding unrouted_row
unrouted_row-unmarked = refl

register-IsDispatched_example :
    let (inserted, db') = register_event_dispatch 200 2 ("logger" ∷ "mailtx" ∷ []) sample_db in
    IsDispatched 200 2 ("logger" ∷ "mailtx" ∷ []) sample_db inserted db'
register-IsDispatched_example =
    register-IsDispatched 200 2 ("logger" ∷ "mailtx" ∷ []) sample_db unrouted_row sample_db-IsValid
      unrouted_row-found unrouted_row-unmarked

register-register_example :
    let db' = (register_event_dispatch 200 2 ("logger" ∷ []) sample_db).1 in
    register_event_dispatch 205 2 ("mailtx" ∷ []) db' ≡ ([], db')
register-register_example = register-register 200 2 ("logger" ∷ []) sample_db 205 ("mailtx" ∷ [])

registered :
    (register_event_dispatch 200 2 ("logger" ∷ "mailtx" ∷ []) sample_db).0
    ≡ (3, "logger") ∷ (4, "mailtx") ∷ []
unfolding register_event_dispatch event_at insert_jobs insert_job nat_eq string_eq
registered = refl

get_runnable_jobs-IsNext_example : IsNext 160 1 sample_db (get_runnable_jobs 160 1 sample_db)
get_runnable_jobs-IsNext_example = get_runnable_jobs-IsNext 160 1 sample_db
