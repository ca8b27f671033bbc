-- ===== src/Db/Integrity.antt =====
-- The constraints of the tables under every history of queries.
use mailmux.Base.{
  ==_comm, ==_iff, ==_ne, ==_refl, All, All-any_self, All-append, All-map, All-select, All-zip,
  Bool, Bool-cases, Distinct-select, Distinct-snoc, List, [], any, any-append, any-select, arith,
  false, inl, inr, nat_eq, not, option_eq, refl, select, string_eq, suc, true, ℕ, ◌&&◌, ◌<◌, ◌==◌,
  ◌∙◌, ◌∷◌, ◌≡◌,
}
use mailmux.Db.{Db, EmailRecord, EventRow, NewEmail, NewEvent, ProcessorJob, has_event_id}
use mailmux.Db.Constraints.{
  claim_job-IsValid, create_job-IsValid, register_event_dispatch-IsValid, update_job_status-IsValid,
}
use mailmux.Db.Emails.{upsert_mailbox_state}
use mailmux.Db.Events.{insert_email_with_event, is_message}
use mailmux.Db.Housekeeping.{
  cleanup_old_events, delete_events, delete_jobless_events, delete_terminal_jobs, eligible_ids,
  mem_id,
}
use mailmux.Db.Invariant.{
  IsValid, Refers, same_dispatch, same_email, same_event, same_job, same_message,
  update_jobs-IsValid,
}
use mailmux.Db.Jobs.{reset_and_claim_job_for_replay, reset_job_for_replay}
use mailmux.Db.Queue.{abandon_queued_job}
use mailmux.Db.Steps.{
  Query, abandons, claims, cleans_up, creates_job, deletes_events, deletes_jobs, execute,
  execute_all, inserts_email, registers, replays, resets, updates, upserts_mailbox,
}

message-fresh :
    (n : ℕ) (es : List EmailRecord) → All (λ e. e.id < n) es → any (λ e. e.id == n) es ≡ false
message-fresh n [] h = refl
message-fresh n (e ∷ es) (h, t) = ground (arith, ==_ne e.id n, message-fresh n es t)

event-fresh :
    (n : ℕ) (es : List EventRow) → All (λ e. e.event.id < n) es → any (has_event_id n) es ≡ false
event-fresh n [] h = refl
event-fresh n (e ∷ es) (h, t) = ground (arith, ==_ne e.event.id n, event-fresh n es t)

insert_email_with_event-IsValid :
    (now : ℕ) (email : NewEmail) (event : NewEvent) (db : Db)
    → IsValid db
    → IsValid (insert_email_with_event now email event db).1
unfolding insert_email_with_event
insert_email_with_event-IsValid now email event db v = elim (Bool-cases duplicate) [
  | inl old ↦ rw old (record {
    jobs_keyed = v.jobs_keyed;
    jobs_unique = v.jobs_unique;
    jobs_below = v.jobs_below;
    jobs_refer = v.jobs_refer;
    events_keyed = v.events_keyed;
    events_below = v.events_below;
    emails_keyed = v.emails_keyed;
    emails_unique = v.emails_unique;
    emails_below = grown;
  })
  | inr new ↦ rw new (record {
    jobs_keyed = v.jobs_keyed;
    jobs_unique = v.jobs_unique;
    jobs_below = v.jobs_below;
    jobs_refer =
        All-map (Refers db.events) _ db.jobs
          (λ j h. any-append (has_event_id j.event_id) db.events _ ∙ rw h) v.jobs_refer;
    events_keyed =
        Distinct-snoc same_event (has_event_id db.next_event) db.events _
          (λ a. ==_comm db.next_event a.event.id)
          (event-fresh db.next_event db.events v.events_below) v.events_keyed;
    events_below =
        All-append (λ e. e.event.id < suc db.next_event) db.events _
          (All-map (λ e. e.event.id < db.next_event) _ db.events (λ e h. omega arith)
            v.events_below)
          (omega arith);
    emails_keyed =
        Distinct-snoc same_email (λ e. e.id == db.next_email) db.emails _
          (λ a. ==_comm db.next_email a.id) (message-fresh db.next_email db.emails v.emails_below)
          v.emails_keyed;
    emails_unique =
        Distinct-snoc same_message (is_message email.account_id email.mailbox_name email.uid)
          db.emails _
          (λ a. rw (
            ==_comm email.account_id a.account_id,
            ==_comm email.mailbox_name a.mailbox_name,
            ==_comm email.uid a.uid,
          ))
          new v.emails_unique;
    emails_below = All-append (λ e. e.id < suc db.next_email) db.emails _ grown (omega arith);
  })
]
  where
    duplicate : Bool
    duplicate = any (is_message email.account_id email.mailbox_name email.uid) db.emails

    grown : All (λ e. e.id < suc db.next_email) db.emails
    grown = All-map (λ e. e.id < db.next_email) _ db.emails (λ e h. omega arith) v.emails_below

-- An event that a remaining job refers to is not deleted.
referred_event-stays :
    (ids : List ℕ) (jobs : List ProcessorJob) (k : ℕ) (es : List EventRow)
    → any (has_event_id k) es ≡ true
    → any (λ j. j.event_id == k) jobs ≡ true
    → any (has_event_id k) (
        select
          (λ e. not (mem_id ids e.event.id && not (any (λ j. j.event_id == e.event.id) jobs)))
          es)
      ≡ true
referred_event-stays ids jobs k es h u = any-select (has_event_id k) _ es kept h
  where
    kept :
        (e : EventRow)
        → has_event_id k e ≡ true
        → not (mem_id ids e.event.id && not (any (λ j. j.event_id == e.event.id) jobs)) ≡ true
    kept e same = let found = rw (← (==_iff e.event.id k).0 same) at u in rw found (ground arith)

delete_terminal_jobs-IsValid :
    (ids : List ℕ) (db : Db) → IsValid db → IsValid (delete_terminal_jobs ids db)
delete_terminal_jobs-IsValid ids db v = record {
  jobs_keyed = Distinct-select same_job _ db.jobs v.jobs_keyed;
  jobs_unique = Distinct-select same_dispatch _ db.jobs v.jobs_unique;
  jobs_below = All-select (λ j. j.id < db.next_job) _ db.jobs v.jobs_below;
  jobs_refer = All-select (Refers db.events) _ db.jobs v.jobs_refer;
  events_keyed = v.events_keyed;
  events_below = v.events_below;
  emails_keyed = v.emails_keyed;
  emails_unique = v.emails_unique;
  emails_below = v.emails_below;
}

delete_jobless_events-IsValid :
    (ids : List ℕ) (db : Db) → IsValid db → IsValid (delete_jobless_events ids db)
delete_jobless_events-IsValid ids db v = record {
  jobs_keyed = v.jobs_keyed;
  jobs_unique = v.jobs_unique;
  jobs_below = v.jobs_below;
  jobs_refer =
      All-map (λ j. Refers db.events j × (any (λ j'. j'.event_id == j.event_id) db.jobs ≡ true)) _
        db.jobs (λ j h. referred_event-stays ids db.jobs j.event_id db.events h.0 h.1)
        (All-zip (Refers db.events) _ db.jobs v.jobs_refer
          (All-any_self (λ a b. b.event_id == a.event_id) db.jobs (λ a. ==_refl a.event_id)));
  events_keyed = Distinct-select same_event _ db.events v.events_keyed;
  events_below = All-select (λ e. e.event.id < db.next_event) _ db.events v.events_below;
  emails_keyed = v.emails_keyed;
  emails_unique = v.emails_unique;
  emails_below = v.emails_below;
}

delete_events-IsValid : (ids : List ℕ) (db : Db) → IsValid db → IsValid (delete_events ids db)
delete_events-IsValid [] db v = v
delete_events-IsValid (id ∷ ids) db v =
    delete_jobless_events-IsValid (id ∷ ids) (delete_terminal_jobs (id ∷ ids) db)
      (delete_terminal_jobs-IsValid (id ∷ ids) db v)

-- Every query that writes keeps the constraints.
pub execute-IsValid : (now : ℕ) (q : Query) (db : Db) → IsValid db → IsValid (execute now q db)
unfolding execute abandon_queued_job reset_and_claim_job_for_replay reset_job_for_replay
    upsert_mailbox_state cleanup_old_events
execute-IsValid now (creates_job event_id name) db v = create_job-IsValid now event_id name db v
execute-IsValid now (registers event_id names) db v =
    register_event_dispatch-IsValid now event_id names db v
execute-IsValid now (updates id status error next output attempts) db v =
    update_job_status-IsValid now id status error next output attempts db v
execute-IsValid now (claims id) db v = claim_job-IsValid now id db v
execute-IsValid now (abandons id reason) db v =
    update_jobs-IsValid _ _ db (λ j. refl) (λ j. refl) (λ j. refl) v
execute-IsValid now (replays id) db v =
    update_jobs-IsValid _ _ db (λ j. refl) (λ j. refl) (λ j. refl) v
execute-IsValid now (resets id) db v =
    update_jobs-IsValid _ _ db (λ j. refl) (λ j. refl) (λ j. refl) v
execute-IsValid now (inserts_email email event) db v =
    insert_email_with_event-IsValid now email event db v
execute-IsValid now (upserts_mailbox account mailbox validity last_seen) db v = record {
  jobs_keyed = v.jobs_keyed;
  jobs_unique = v.jobs_unique;
  jobs_below = v.jobs_below;
  jobs_refer = v.jobs_refer;
  events_keyed = v.events_keyed;
  events_below = v.events_below;
  emails_keyed = v.emails_keyed;
  emails_unique = v.emails_unique;
  emails_below = v.emails_below;
}
execute-IsValid now (cleans_up days) db v = delete_events-IsValid (eligible_ids now days db) db v
execute-IsValid now (deletes_jobs ids) db v = delete_terminal_jobs-IsValid ids db v
execute-IsValid now (deletes_events ids) db v = delete_jobless_events-IsValid ids db v

-- From tables that satisfy the constraints, every history of queries leads to tables that do: the
-- keys of jobs, events and emails are unique and below their sequences, no two jobs stand for one
-- event and processor, no two emails for one account, mailbox and uid, and every job's event is
-- there.
pub execute_all-IsValid :
    (qs : List (ℕ × Query)) (db : Db) → IsValid db → IsValid (execute_all qs db)
unfolding execute_all
execute_all-IsValid [] db v = v
execute_all-IsValid ((now, q) ∷ qs) db v =
    execute_all-IsValid qs (execute now q db) (execute-IsValid now q db v)
