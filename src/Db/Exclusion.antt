-- ===== src/Db/Exclusion.antt =====
-- The tasks of mailmux that share the job queue: the scheduler claims jobs
-- (mailmux/src/processor/scheduler.rs), the replay command resets and claims them
-- (mailmux/src/main.rs), both run a processor and record its result, and ingestion, dispatch and
-- cleanup go on meanwhile. `running` holds the id of every job whose processor some task executes.
pub mod Taking
pub mod Holding
pub mod Reachable
use mailmux.Base.{
  All, Bool, Distinct, List, Option, String, any, false, nat_eq, none, not, ok, option_eq, select,
  some, string_eq, true, ℕ, ◌==◌, ◌∷◌, ◌≡◌,
}
use mailmux.Db.{Db, Json, ProcessorJob, Status, in_progress}
use mailmux.Db.Invariant.{IsValid}
use mailmux.Db.Jobs.{keep, reset_and_claim_job_for_replay, update_job_status}
use mailmux.Db.Queue.{claim_job}
use mailmux.Db.Steps.{
  Query, abandons, claims, cleans_up, creates_job, deletes_events, deletes_jobs, execute,
  inserts_email, registers, replays, resets, updates, upserts_mailbox,
}
use mailmux.Db.View.{view}

pub record System : Type 0 where
  pub db : Db
  pub running : List ℕ

-- The task that executed the job is done with it.
abbrev pub remove : ℕ → List ℕ → List ℕ
remove id ids = select (λ i. not (i == id)) ids

-- The queries that a task makes on jobs which it does not execute.
abbrev pub leaves_running : Query → Bool
leaves_running (creates_job _ _) = true
leaves_running (registers _ _) = true
leaves_running (updates _ _ _ _ _ _) = false
leaves_running (claims _) = false
leaves_running (abandons _ _) = true
leaves_running (replays _) = false
leaves_running (resets _) = false
leaves_running (inserts_email _ _) = true
leaves_running (upserts_mailbox _ _ _ _) = true
leaves_running (cleans_up _) = true
leaves_running (deletes_jobs _) = true
leaves_running (deletes_events _) = true

pub data Step : System → System → Type 0 where
  claim_won :
      (now id : ℕ) (s : System) (db' : Db)
      → claim_job now id s.db ≡ ok (true, db')
      → Step s (record { db = db'; running = id ∷ s.running })
  claim_lost :
      (now id : ℕ) (s : System) (db' : Db)
      → claim_job now id s.db ≡ ok (false, db')
      → Step s (record { db = db'; running = s.running })
  replay_won :
      (now id : ℕ) (s : System) (db' : Db)
      → reset_and_claim_job_for_replay now id s.db ≡ (true, db')
      → Step s (record { db = db'; running = id ∷ s.running })
  replay_lost :
      (now id : ℕ) (s : System) (db' : Db)
      → reset_and_claim_job_for_replay now id s.db ≡ (false, db')
      → Step s (record { db = db'; running = s.running })
  record_result :
      (now id : ℕ) (status : Status) (error : Option String) (next : Option ℕ)
      (output : Option Json) (s : System) (db' : Db)
      → any (λ i. i == id) s.running ≡ true
      → update_job_status now id status error next output keep s.db ≡ ok db'
      → Step s (record { db = db'; running = remove id s.running })
  -- The process dies, or the result could not be recorded.
  give_up : (id : ℕ) (s : System) → Step s (record { db = s.db; running = remove id s.running })
  elsewhere :
      (now : ℕ) (q : Query) (s : System)
      → leaves_running q ≡ true
      → Step s (record { db = execute now q s.db; running = s.running })

pub data Reach (s : System) : System → Type 0 where
  at_start : Reach s s
  then_step : {t u : System} → Reach s t → Step t u → Reach s u

abbrev pub status_of : Option ProcessorJob → Option Status
status_of none = none
status_of (some j) = some j.status

unfoldable pub status_at : Db → ℕ → Option Status
status_at db id = status_of (view db id)

abbrev pub IsHeld : Db → ℕ → Type 0
IsHeld db id = status_at db id ≡ some in_progress

-- No job is executed by two tasks, and the row of each executed job says `in_progress`.
pub record IsExclusive (s : System) : Type 0 where
  pub valid : IsValid s.db
  pub once : Distinct (λ a b. b == a) s.running
  pub held : All (IsHeld s.db) s.running
