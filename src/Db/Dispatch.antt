-- ===== src/Db/Dispatch.antt =====
-- Dispatch of an event (`register_event_dispatch` of mailmux/src/db/jobs.rs): once, and completely.
use mailmux.Base.{
  ==_refl, All, Bool, List, Option, String, [], any, any-append, any-false-find?, arith, find?,
  find?-append, find?-holds, find?-update_where, nat_eq, none, not, option_eq, refl, some,
  string_eq, true, update_where, ℕ, ◌∙◌, ◌∷◌, ◌≡◌,
}
use mailmux.Db.{Db, EventRow, ProcessorJob, event_at, has_event_id, has_id, is_job_of, job_at}
use mailmux.Db.Constraints.{find?-any}
use mailmux.Db.Events.{is_undispatched}
use mailmux.Db.Invariant.{IsValid, below-fresh, insert_job-IsValid, insert_job-events}
use mailmux.Db.Jobs.{
  dispatch_marked, dispatch_row, insert_job, insert_jobs, new_job, register_event_dispatch,
}

-- A job that is there stays what it is when other jobs are inserted.
insert_job-job_at :
    (now event_id : ℕ) (name : String) (db : Db) (k : ℕ) (j : ProcessorJob)
    → job_at k db ≡ some j
    → job_at k (insert_job now event_id name db).1 ≡ some j
unfolding insert_job job_at
insert_job-job_at now event_id name db k j h =
    ground (arith, find?-append (has_id k) db.jobs (new_job now db.next_job event_id name ∷ []))

insert_jobs-job_at :
    (now event_id : ℕ) (names : List String) (db : Db) (k : ℕ) (j : ProcessorJob)
    → job_at k db ≡ some j
    → job_at k (insert_jobs now event_id names db).1 ≡ some j
unfolding insert_jobs
insert_jobs-job_at now event_id [] db k j h = h
insert_jobs-job_at now event_id (name ∷ names) db k j h =
    insert_jobs-job_at now event_id names (insert_job now event_id name db).1 k j
      (insert_job-job_at now event_id name db k j h)

insert_job-new :
    (now event_id : ℕ) (name : String) (db : Db) (id : ℕ)
    → IsValid db
    → (insert_job now event_id name db).0 ≡ some id
    → job_at id (insert_job now event_id name db).1 ≡ some (new_job now id event_id name)
unfolding insert_job job_at
insert_job-new now event_id name db id v h = ground (
  arith,
  find?-append (has_id id) db.jobs (new_job now db.next_job event_id name ∷ []),
  any-false-find? (has_id db.next_job) db.jobs (below-fresh db.next_job db.jobs v.jobs_below),
  ==_refl id,
)

insert_job-any :
    (now event_id : ℕ) (name : String) (db : Db)
    → any (is_job_of event_id name) (insert_job now event_id name db).1.jobs ≡ true
unfolding insert_job
insert_job-any now event_id name db = ground (
  arith,
  any-append (is_job_of event_id name) db.jobs (new_job now db.next_job event_id name ∷ []),
  ==_refl event_id,
  ==_refl name,
)

insert_job-any_kept :
    (now event_id : ℕ) (name other : String) (db : Db)
    → any (is_job_of event_id other) db.jobs ≡ true
    → any (is_job_of event_id other) (insert_job now event_id name db).1.jobs ≡ true
unfolding insert_job
insert_job-any_kept now event_id name other db h = ground (
  arith,
  any-append (is_job_of event_id other) db.jobs (new_job now db.next_job event_id name ∷ []),
)

insert_jobs-any_kept :
    (now event_id : ℕ) (names : List String) (other : String) (db : Db)
    → any (is_job_of event_id other) db.jobs ≡ true
    → any (is_job_of event_id other) (insert_jobs now event_id names db).1.jobs ≡ true
unfolding insert_jobs
insert_jobs-any_kept now event_id [] other db h = h
insert_jobs-any_kept now event_id (name ∷ names) other db h =
    insert_jobs-any_kept now event_id names other (insert_job now event_id name db).1
      (insert_job-any_kept now event_id name other db h)

-- Every name has a job after the insert.
insert_jobs-All :
    (now event_id : ℕ) (names : List String) (db : Db)
    → All
        (λ name. any (is_job_of event_id name) (insert_jobs now event_id names db).1.jobs ≡ true)
        names
unfolding insert_jobs
insert_jobs-All now event_id [] db = tt
insert_jobs-All now event_id (name ∷ names) db = (
  insert_jobs-any_kept now event_id names name (insert_job now event_id name db).1
      (insert_job-any now event_id name db),
  insert_jobs-All now event_id names (insert_job now event_id name db).1,
)

-- The answer names a job that is new: pending, and not attempted yet.
abbrev pub IsNew : ℕ → ℕ → Db → ℕ × String → Type 0
IsNew now event_id db (id, name) = job_at id db ≡ some (new_job now id event_id name)

insert_jobs-IsNew :
    (now event_id : ℕ) (names : List String) (db : Db)
    → any (has_event_id event_id) db.events ≡ true
    → IsValid db
    → All
        (IsNew now event_id (insert_jobs now event_id names db).1)
        (insert_jobs now event_id names db).0
unfolding insert_jobs
insert_jobs-IsNew now event_id [] db ex v = tt
insert_jobs-IsNew now event_id (name ∷ names) db ex v =
    answered (insert_job now event_id name db).0 refl (
      insert_jobs-IsNew now event_id names first (rw (insert_job-events now event_id name db) ex)
        (insert_job-IsValid now event_id name db (λ _. ex) v))
  where
    first : Db
    first = (insert_job now event_id name db).1

    answered :
        (o : Option ℕ)
        → (insert_job now event_id name db).0 ≡ o
        → All
            (IsNew now event_id (insert_jobs now event_id names first).1)
            (insert_jobs now event_id names first).0
        → All (IsNew now event_id (insert_jobs now event_id names first).1) (elim o [
          | none ↦ (insert_jobs now event_id names first).0
          | some id ↦ (id, name) ∷ (insert_jobs now event_id names first).0
        ])
    answered none e rest = rest
    answered (some id) e rest = (
      insert_jobs-job_at now event_id names first id _ (insert_job-new now event_id name db id v e),
      rest,
    )

module _ (now event_id : ℕ) (names : List String) (db : Db) where
  -- What is left when an event was dispatched.
  pub record IsDispatched (inserted : List (ℕ × String)) (db' : Db) : Type 0 where
    pub complete : All (λ name. any (is_job_of event_id name) db'.jobs ≡ true) names
    pub created : All (IsNew now event_id db') inserted
    pub kept : (k : ℕ) (j : ProcessorJob) → job_at k db ≡ some j → job_at k db' ≡ some j
    pub marked : (row : EventRow) → event_at event_id db' ≡ some row → row.dispatched_at ≡ some now

  marked_rows :
      (es : List EventRow) (row : EventRow)
      → find?
          (has_event_id event_id)
          (update_where (has_event_id event_id) (λ e. record e { dispatched_at = some now }) es)
        ≡ some row
      → row.dispatched_at ≡ some now
  marked_rows [] row h = cc
  marked_rows (e ∷ es) row h = ground (arith, marked_rows es row)

  -- On valid tables, for an event that is there and not dispatched yet: after the transaction each of
  -- the named processors has a job for it, the jobs in the answer are new and pending with no attempt
  -- made, every job that was there is unchanged, and the event is marked.
  pub register-IsDispatched :
      (row : EventRow)
      → IsValid db
      → event_at event_id db ≡ some row
      → row.dispatched_at ≡ none
      → let (inserted, db') = register_event_dispatch now event_id names db in
        IsDispatched inserted db'
  unfolding register_event_dispatch event_at insert_jobs job_at
  register-IsDispatched row v e unmarked =
      rw (e, unmarked)
        (record {
          complete = insert_jobs-All now event_id names db;
          created = insert_jobs-IsNew now event_id names db (find?-any event_id db.events row e) v;
          kept = λ k j. insert_jobs-job_at now event_id names db k j;
          marked = marked_rows (insert_jobs now event_id names db).1.events;
        })

  insert_jobs-events :
      (names : List String) (db : Db) → (insert_jobs now event_id names db).1.events ≡ db.events
  unfolding insert_jobs
  insert_jobs-events [] db = refl
  insert_jobs-events (name ∷ names) db =
      insert_jobs-events names (insert_job now event_id name db).1
      ∙ insert_job-events now event_id name db

  marked_or_missing : Option EventRow → Bool
  marked_or_missing none = true
  marked_or_missing (some row) = not (is_undispatched row)

  dispatch_settled :
      (later : ℕ) (others : List String) (d : Db) (o : Option EventRow)
      → marked_or_missing o ≡ true
      → dispatch_row later event_id others d o ≡ ([], d)
  unfolding marked_or_missing
  dispatch_settled later others d none h = refl
  dispatch_settled later others d (some row) h = ground arith

  after-dispatch :
      (o : Option EventRow)
      → find? (has_event_id event_id) db.events ≡ o
      → marked_or_missing
          (find? (has_event_id event_id) (dispatch_row now event_id names db o).1.events)
        ≡ true
  unfolding marked_or_missing
  after-dispatch none e = rw e
  after-dispatch (some row) e = inner row.dispatched_at refl
    where
      inner :
          (t : Option ℕ)
          → row.dispatched_at ≡ t
          → marked_or_missing
              (find? (has_event_id event_id) (dispatch_marked now event_id names db t).1.events)
            ≡ true
      inner none u = rw (
        insert_jobs-events names db,
        find?-update_where (has_event_id event_id) (has_event_id event_id)
            (λ x. record x { dispatched_at = some now }) db.events (λ x. refl),
        e,
        find?-holds (has_event_id event_id) db.events row e,
      )
      inner (some t) u = rw e (rw u)

  -- Dispatch is done once: after one dispatch of an event, whatever it answered, a second one of the
  -- same event, with any processors, creates no job and changes nothing.
  pub register-register :
      (later : ℕ) (others : List String)
      → let db' = (register_event_dispatch now event_id names db).1 in
        register_event_dispatch later event_id others db' ≡ ([], db')
  unfolding register_event_dispatch event_at
  register-register later others =
      dispatch_settled later others _ _
        (after-dispatch (find? (has_event_id event_id) db.events) refl)
