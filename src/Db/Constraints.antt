-- ===== src/Db/Constraints.antt =====
-- The constraints of the tables under the queries of mailmux/src/db/jobs.rs.
use mailmux.Base.{
  All-map, All-update_where, Bool, Bool-cases, Distinct-update_where, List, Option, String, [], any,
  any-update_where, arith, err, false, find?, if◌then◌else◌, inl, inr, nat_eq, none, ok, option_eq,
  refl, some, string_eq, true, ℕ, ◌<◌, ◌||◌, ◌∙◌, ◌∷◌, ◌≡◌,
}
use mailmux.Db.{Db, EventRow, Json, Status, event_at, has_event_id, has_id, is_job_of}
use mailmux.Db.Invariant.{
  IsValid, Refers, insert_job-IsValid, insert_job-events, same_event, update_jobs-IsValid,
}
use mailmux.Db.Jobs.{
  AttemptsUpdate, create_job, dispatch_marked, dispatch_row, increment, insert_job, insert_jobs,
  keep, mark_dispatched, overflows, register_event_dispatch, update_job_status,
}
use mailmux.Db.Queue.{claim_job, claimable}
use mailmux.Db.Steps.{after_query}

overflows_cases :
    (P : Db → Type 0) (db : Db) (b : Bool) (e : String) (d : Db)
    → P db
    → P d
    → P (after_query (λ d. d) db (if b then err e else ok d))
overflows_cases P db true e d old new = old
overflows_cases P db false e d old new = new

pub update_job_status-IsValid :
    (now id : ℕ) (status : Status) (error : Option String) (next : Option ℕ) (output : Option Json)
    (attempts : AttemptsUpdate) (db : Db)
    → IsValid db
    → IsValid
        (after_query (λ d. d) db (update_job_status now id status error next output attempts db))
unfolding update_job_status
update_job_status-IsValid now id status error next output keep db v =
    update_jobs-IsValid _ _ db (λ j. refl) (λ j. refl) (λ j. refl) v
update_job_status-IsValid now id status error next output increment db v =
    overflows_cases IsValid db (overflows (has_id id) db) _ _ v
      (update_jobs-IsValid _ _ db (λ j. refl) (λ j. refl) (λ j. refl) v)

pub claim_job-IsValid :
    (now id : ℕ) (db : Db) → IsValid db → IsValid (after_query (λ r. r.1) db (claim_job now id db))
unfolding claim_job
claim_job-IsValid now id db v = elim (Bool-cases (overflows (claimable now id) db)) [
  | inl full ↦ rw full v
  | inr fits ↦ rw fits (update_jobs-IsValid _ _ db (λ j. refl) (λ j. refl) (λ j. refl) v)
]

pub create_job-IsValid :
    (now event_id : ℕ) (name : String) (db : Db)
    → IsValid db
    → IsValid (after_query (λ r. r.1) db (create_job now event_id name db))
unfolding create_job
create_job-IsValid now event_id name db v = elim (Bool-cases accepted) [
  | inl pass ↦ rw pass (insert_job-IsValid now event_id name db (λ new. ground arith) v)
  | inr fail ↦ rw fail v
]
  where
    accepted : Bool
    accepted = any (is_job_of event_id name) db.jobs || any (has_event_id event_id) db.events

insert_jobs-IsValid :
    (now event_id : ℕ) (names : List String) (db : Db)
    → any (has_event_id event_id) db.events ≡ true
    → IsValid db
    → IsValid (insert_jobs now event_id names db).1
unfolding insert_jobs
insert_jobs-IsValid now event_id [] db ex v = v
insert_jobs-IsValid now event_id (name ∷ names) db ex v =
    insert_jobs-IsValid now event_id names (insert_job now event_id name db).1
      (rw (insert_job-events now event_id name db) ex)
      (insert_job-IsValid now event_id name db (λ _. ex) v)

mark_dispatched-IsValid :
    (now event_id : ℕ) (db : Db) → IsValid db → IsValid (mark_dispatched now event_id db)
mark_dispatched-IsValid now event_id db v = record {
  jobs_keyed = v.jobs_keyed;
  jobs_unique = v.jobs_unique;
  jobs_below = v.jobs_below;
  jobs_refer =
      All-map (Refers db.events) (Refers (mark_dispatched now event_id db).events) db.jobs
        (λ j h. any-update_where (has_event_id j.event_id) _ _ db.events (λ e. refl) ∙ h)
        v.jobs_refer;
  events_keyed =
      Distinct-update_where same_event _ _ db.events (λ a b. refl) (λ a b. refl) v.events_keyed;
  events_below =
      All-update_where (λ e. e.event.id < db.next_event) _ _ db.events (λ e _ h. h) v.events_below;
  emails_keyed = v.emails_keyed;
  emails_unique = v.emails_unique;
  emails_below = v.emails_below;
}

pub find?-any :
    (id : ℕ) (es : List EventRow) (e : EventRow)
    → find? (has_event_id id) es ≡ some e
    → any (has_event_id id) es ≡ true
find?-any id [] e h = cc
find?-any id (x ∷ xs) e h = ground (arith, find?-any id xs e)

pub register_event_dispatch-IsValid :
    (now event_id : ℕ) (names : List String) (db : Db)
    → IsValid db
    → IsValid (register_event_dispatch now event_id names db).1
unfolding register_event_dispatch event_at
register_event_dispatch-IsValid now event_id names db v =
    go (find? (has_event_id event_id) db.events) refl
  where
    open_row :
        (row : EventRow) (marked : Option ℕ)
        → find? (has_event_id event_id) db.events ≡ some row
        → IsValid (dispatch_marked now event_id names db marked).1
    open_row row none e =
        mark_dispatched-IsValid now event_id _
          (insert_jobs-IsValid now event_id names db (find?-any event_id db.events row e) v)
    open_row row (some t) e = v

    go :
        (row : Option EventRow)
        → find? (has_event_id event_id) db.events ≡ row
        → IsValid (dispatch_row now event_id names db row).1
    go none e = v
    go (some row) e = open_row row row.dispatched_at e
