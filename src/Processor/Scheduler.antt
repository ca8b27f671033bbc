-- ===== src/Processor/Scheduler.antt =====
-- mailmux/src/processor/scheduler.rs: the handlers of `JobScheduler`. Log lines are left out.
pub mod Backoff
pub mod Retries
pub mod Execution
pub mod Settling
use mailmux.Base.{
  Bool, List, Option, Result, String, [], err, false, get_elem?, if◌then◌else◌, leb, length, map,
  min, nat_eq, none, not, ok, option_eq, select, some, string_eq, true, ℕ, ◌+◌, ◌-◌, ◌==◌, ◌||◌,
  ◌∷◌,
}
use mailmux.Config.{ProcessorConfig}
use mailmux.Db.{Db, EmailRecord, Event, Json, ProcessorJob, Status, abandoned, completed, failed}
use mailmux.Db.Emails.{get_email_by_id}
use mailmux.Db.Events.{get_event_by_id}
use mailmux.Db.Jobs.{get_job_by_id, keep, register_event_dispatch, update_job_status}
use mailmux.Db.Queue.{abandon_queued_job, claim_job, get_runnable_jobs}
use mailmux.Processor.{Outcome, ProcessorMetric, ProcessorOutput, answered, failure, timed_out}
use mailmux.Processor.Effects.{
  Env, M, fetch, inc_processor_runs, query, record_processor_metrics, return, run_processor,
  utc_now, ◌>>=◌, ◌>>◌,
}
use mailmux.Processor.Registry.{
  Processor, RegisteredProcessor, processors_for_event, require_processor_for_event,
}

-- `configs.into_iter().map(|c| (c.name.clone(), c)).collect()` and `get`: the last one of a name.
unfoldable pub config_for : String → List ProcessorConfig → Option ProcessorConfig
config_for name [] = none
config_for name (c ∷ cs) = elim (config_for name cs) [
  | some d ↦ some d
  | none ↦ if c.name == name then some c else none
]

abbrev pub max_retries_of : Option ProcessorConfig → ℕ
max_retries_of none = 0
max_retries_of (some c) = c.max_retries

abbrev pub backoff_of : Option ProcessorConfig → List ℕ
backoff_of none = []
backoff_of (some c) = c.retry_backoff_secs

abbrev pub timeout_of : Option ProcessorConfig → ℕ
timeout_of none = 30
timeout_of (some c) = c.timeout_secs

-- `.copied().unwrap_or(60)`
abbrev pub delay_or_default : Option ℕ → ℕ
delay_or_default none = 60
delay_or_default (some delay) = delay

-- Subtraction on ℕ is `saturating_sub`.
unfoldable pub backoff_delay : ℕ → List ℕ → ℕ
backoff_delay attempts backoff_secs =
    delay_or_default (get_elem? backoff_secs (min (attempts - 1) (length backoff_secs - 1)))

abbrev pub exhausted : ℕ → ℕ → Bool
exhausted max_retries attempts = max_retries == 0 || leb max_retries attempts

abbrev pub with_tables : Result Db → Result (Unit {0} × Db)
with_tables (ok db) = ok (tt, db)
with_tables (err e) = err e

abbrev pub message_or_empty : Option String → String
message_or_empty none = ""
message_or_empty (some m) = m

abbrev pub record_metrics : String → List ProcessorMetric → M (Unit {0})
record_metrics name [] = return tt
record_metrics name (m ∷ ms) = record_processor_metrics name (m ∷ ms)

module _ (env : Env) (configs : List ProcessorConfig) where
  abbrev pub update_status :
      ℕ → Status → Option String → Option ℕ → Option Json → M (Result (Unit {0}))
  update_status id status error next_retry output =
      query env
        (λ now db. with_tables (update_job_status now id status error next_retry output keep db))

  -- Without the conversion of the delay to an i64 and the bound of a chrono Duration: the entries of a
  -- retry schedule are taken to be below both.
  abbrev pub plan_retry :
      ℕ → Option ProcessorConfig → String → Option Json → Option ProcessorJob → M (Unit {0})
  plan_retry job_id config message output none = return tt
  plan_retry job_id config message output (some job) =
      if exhausted (max_retries_of config) job.attempts
      then (do _ ← update_status job_id abandoned (some message) none output; return tt)
      else (do
        now ← utc_now env
        _ ←
            update_status job_id failed (some message)
              (some (now + backoff_delay job.attempts (backoff_of config))) output
        return tt)

  abbrev pub settle_failure :
      ℕ → String → String → Option Json → Result (Option ProcessorJob) → M (Unit {0})
  settle_failure job_id name message output (ok job) =
      plan_retry job_id (config_for name configs) message output job
  settle_failure job_id name message output (err e) = return tt

  unfoldable pub handle_failure : ℕ → String → String → Option Json → M (Unit {0})
  handle_failure job_id name message output = do
    job ← fetch env (λ now db. get_job_by_id job_id db)
    settle_failure job_id name message output job

  abbrev pub record_success : ℕ → String → ProcessorOutput → Option Json → M (Unit {0})
  record_success job_id name out none = do
    _ ← update_status job_id completed none none none
    inc_processor_runs name "success"
  record_success job_id name out (some serialized) = do
    _ ← update_status job_id completed none none (some serialized)
    inc_processor_runs name "success"
    record_metrics name out.metrics

  abbrev pub finish_output : ℕ → String → ProcessorOutput → Bool → M (Unit {0})
  finish_output job_id name out true = record_success job_id name out (env.to_value out)
  finish_output job_id name out false = do
    handle_failure job_id name (message_or_empty out.message) (env.to_value out)
    inc_processor_runs name "failure"

  -- `match result`
  abbrev pub finish : ℕ → String → Outcome → M (Unit {0})
  finish job_id name (answered out) = finish_output job_id name out out.success
  finish job_id name (failure e) = do
    handle_failure job_id name e none
    inc_processor_runs name "error"
  finish job_id name timed_out = do
    handle_failure job_id name "execution timed out" none
    inc_processor_runs name "timeout"

  abbrev pub claimed_or_not :
      ℕ → Processor → Event → Option EmailRecord → ℕ → String → Result Bool → M (Unit {0})
  claimed_or_not job_id p event email timeout name (ok true) = do
    outcome ← run_processor env p event email timeout
    finish job_id name outcome
  claimed_or_not job_id p event email timeout name (ok false) = return tt
  claimed_or_not job_id p event email timeout name (err e) = return tt

  module _ (registry : List RegisteredProcessor) where
    abbrev pub execute_with :
        ℕ → String → Event → Option EmailRecord → ℕ → Result Processor → M (Unit {0})
    execute_with job_id name event email timeout (err e) = do
      _ ← query env (λ now db. ok (abandon_queued_job now job_id e db))
      return tt
    execute_with job_id name event email timeout (ok p) = do
      won ← query env (λ now db. claim_job now job_id db)
      claimed_or_not job_id p event email timeout name won

    unfoldable pub execute_job : ℕ → String → Event → Option EmailRecord → ℕ → M (Unit {0})
    execute_job job_id name event email timeout =
        execute_with job_id name event email timeout
          (require_processor_for_event registry name event)

    -- `new_jobs`, from processor names to job ids, and `remove`.
    abbrev pub take_job : String → List (ℕ × String) → Option ℕ
    take_job name [] = none
    take_job name ((id, n) ∷ jobs) = if n == name then some id else take_job name jobs

    abbrev pub without : String → List (ℕ × String) → List (ℕ × String)
    without name jobs = select (λ (id, n). not (n == name)) jobs

    unfoldable pub run_new_jobs :
        Event → Option EmailRecord → List Processor → List (ℕ × String) → M (Unit {0})
    run_new_jobs event email [] new_jobs = return tt
    run_new_jobs event email (p ∷ ps) new_jobs = elim (take_job p.name new_jobs) [
      | none ↦ run_new_jobs event email ps new_jobs
      | some id ↦ (do
        execute_job id p.name event email (timeout_of (config_for p.name configs))
        run_new_jobs event email ps (without p.name new_jobs))
    ]

    abbrev pub email_or_none : Result (Option EmailRecord) → Option EmailRecord
    email_or_none (ok e) = e
    email_or_none (err e) = none

    unfoldable pub load_email : Option ℕ → M (Option EmailRecord)
    load_email none = return none
    load_email (some id) = do
      e ← fetch env (λ now db. get_email_by_id id db)
      return (email_or_none e)

    abbrev pub start_new : Event → List Processor → Result (List (ℕ × String)) → M (Unit {0})
    start_new event processors (err e) = return tt
    start_new event processors (ok []) = return tt
    start_new event processors (ok (j ∷ js)) = do
      email ← load_email event.email_id
      run_new_jobs event email processors (j ∷ js)

    unfoldable pub process_event : Event → M (Unit {0})
    process_event event = do
      let processors = processors_for_event registry event
      jobs ←
          query env
            (λ now db. ok (register_event_dispatch now event.id (map (λ p. p.name) processors) db))
      start_new event processors jobs

    unfoldable pub process_events : List Event → M (Unit {0})
    process_events [] = return tt
    process_events (event ∷ events) = do process_event event; process_events events

    abbrev pub retry_one : ProcessorJob → Result (Option Event) → M (Unit {0})
    retry_one job (err e) = return tt
    retry_one job (ok none) = return tt
    retry_one job (ok (some event)) = do
      email ← load_email event.email_id
      execute_job job.id job.processor_name event email
          (timeout_of (config_for job.processor_name configs))

    unfoldable pub retry_jobs : List ProcessorJob → M (Unit {0})
    retry_jobs [] = return tt
    retry_jobs (job ∷ jobs) = do
      event ← fetch env (λ now db. get_event_by_id job.event_id db)
      retry_one job event
      retry_jobs jobs

    unfoldable pub retry_sweep : M (Unit {0})
    retry_sweep = do
      retryable ← fetch env (λ now db. get_runnable_jobs now 50 db)
      elim retryable [ ok jobs ↦ retry_jobs jobs | err e ↦ return tt ]
