-- ===== src/Db/Invariant.antt =====
-- What the tables keep: of the constraints of mailmux/migrations/ the keys of processor_jobs, events
-- and emails and the reference of a job to its event. The key of mailbox_states and the reference of an
-- event to its email are not among them.
use mailmux.Base.{
  ==_comm, ==_ne, All, All-append, All-map, All-update_where, Bool, Bool-cases, Distinct,
  Distinct-snoc, Distinct-update_where, List, String, [], any, ap, arith, false, inl, inr, nat_eq,
  option_eq, refl, string_eq, suc, true, update_where, ℕ, ◌<◌, ◌==◌, ◌∷◌, ◌≡◌,
}
use mailmux.Db.{Db, EmailRecord, EventRow, ProcessorJob, has_event_id, has_id, is_job_of}
use mailmux.Db.Events.{is_message}
use mailmux.Db.Jobs.{insert_job}

abbrev pub same_job : ProcessorJob → ProcessorJob → Bool
same_job a b = has_id a.id b

abbrev pub same_dispatch : ProcessorJob → ProcessorJob → Bool
same_dispatch a b = is_job_of a.event_id a.processor_name b

abbrev pub same_event : EventRow → EventRow → Bool
same_event a b = has_event_id a.event.id b

abbrev pub same_email : EmailRecord → EmailRecord → Bool
same_email a b = b.id == a.id

abbrev pub same_message : EmailRecord → EmailRecord → Bool
same_message a b = is_message a.account_id a.mailbox_name a.uid b

abbrev pub Refers : List EventRow → ProcessorJob → Type 0
Refers events j = any (has_event_id j.event_id) events ≡ true

pub record IsValid (db : Db) : Type 0 where
  pub jobs_keyed : Distinct same_job db.jobs
  pub jobs_unique : Distinct same_dispatch db.jobs
  pub jobs_below : All (λ j. j.id < db.next_job) db.jobs
  pub jobs_refer : All (Refers db.events) db.jobs
  pub events_keyed : Distinct same_event db.events
  pub events_below : All (λ e. e.event.id < db.next_event) db.events
  pub emails_keyed : Distinct same_email db.emails
  pub emails_unique : Distinct same_message db.emails
  pub emails_below : All (λ e. e.id < db.next_email) db.emails

pub below-fresh :
    (n : ℕ) (js : List ProcessorJob) → All (λ j. j.id < n) js → any (has_id n) js ≡ false
below-fresh n [] h = refl
below-fresh n (j ∷ js) (h, t) = ground (arith, ==_ne j.id n, below-fresh n js t)

below-suc : (n : ℕ) (js : List ProcessorJob) → All (λ j. j.id < n) js → All (λ j. j.id < suc n) js
below-suc n js h = All-map (λ j. j.id < n) (λ j. j.id < suc n) js (λ j p. omega arith) h

-- An update of job rows that keeps their keys and their event keeps the constraints.
pub update_jobs-IsValid :
    (q : ProcessorJob → Bool) (f : ProcessorJob → ProcessorJob) (db : Db)
    → ((j : ProcessorJob) → (f j).id ≡ j.id)
    → ((j : ProcessorJob) → (f j).event_id ≡ j.event_id)
    → ((j : ProcessorJob) → (f j).processor_name ≡ j.processor_name)
    → IsValid db
    → IsValid (record db { jobs = update_where q f db.jobs })
update_jobs-IsValid q f db id event name v = record {
  jobs_keyed =
      Distinct-update_where same_job q f db.jobs (λ a b. ap (λ k. has_id k b) (id a))
        (λ a b. ap (λ k. k == a.id) (id b)) v.jobs_keyed;
  jobs_unique =
      Distinct-update_where same_dispatch q f db.jobs (λ a b. rw (event a, name a))
        (λ a b. rw (event b, name b)) v.jobs_unique;
  jobs_below =
      All-update_where (λ j. j.id < db.next_job) q f db.jobs (λ j _ h. rw (id j) h) v.jobs_below;
  jobs_refer =
      All-update_where (Refers db.events) q f db.jobs (λ j _ h. rw (event j) h) v.jobs_refer;
  events_keyed = v.events_keyed;
  events_below = v.events_below;
  emails_keyed = v.emails_keyed;
  emails_unique = v.emails_unique;
  emails_below = v.emails_below;
}

pub insert_job-IsValid :
    (now event_id : ℕ) (name : String) (db : Db)
    → (any (is_job_of event_id name) db.jobs ≡ false → any (has_event_id event_id) db.events ≡ true)
    → IsValid db
    → IsValid (insert_job now event_id name db).1
unfolding insert_job
insert_job-IsValid now event_id name db ex v =
    elim (Bool-cases (any (is_job_of event_id name) db.jobs)) [
      | inl old ↦ rw old (record {
        jobs_keyed = v.jobs_keyed;
        jobs_unique = v.jobs_unique;
        jobs_below = below-suc db.next_job db.jobs v.jobs_below;
        jobs_refer = v.jobs_refer;
        events_keyed = v.events_keyed;
        events_below = v.events_below;
        emails_keyed = v.emails_keyed;
        emails_unique = v.emails_unique;
        emails_below = v.emails_below;
      })
      | inr new ↦ rw new (record {
        jobs_keyed =
            Distinct-snoc same_job (has_id db.next_job) db.jobs _ (λ a. ==_comm db.next_job a.id)
              (below-fresh db.next_job db.jobs v.jobs_below) v.jobs_keyed;
        jobs_unique =
            Distinct-snoc same_dispatch (is_job_of event_id name) db.jobs _
              (λ a. rw (==_comm event_id a.event_id, ==_comm name a.processor_name)) new
              v.jobs_unique;
        jobs_below =
            All-append (λ j. j.id < suc db.next_job) db.jobs _
              (below-suc db.next_job db.jobs v.jobs_below) (omega arith);
        jobs_refer = All-append (Refers db.events) db.jobs _ v.jobs_refer (ex new, tt);
        events_keyed = v.events_keyed;
        events_below = v.events_below;
        emails_keyed = v.emails_keyed;
        emails_unique = v.emails_unique;
        emails_below = v.emails_below;
      })
    ]

pub insert_job-events :
    (now event_id : ℕ) (name : String) (db : Db)
    → (insert_job now event_id name db).1.events ≡ db.events
unfolding insert_job
insert_job-events now event_id name db = ground arith
