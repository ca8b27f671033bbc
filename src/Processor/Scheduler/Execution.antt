-- ===== src/Processor/Scheduler/Execution.antt =====
-- One execution of a job by the scheduler, from the claim to the recorded result.
use mailmux.Base.{
  Bool, Bool-cases, List, Option, Result, String, [], ap, false, if◌then◌else◌, inl, inr, nat_eq,
  none, ok, option_eq, refl, some, string_eq, suc, true, ℕ, ◌<◌, ◌∙◌, ◌∷◌, ◌≡◌,
}
use mailmux.Config.{ProcessorConfig}
use mailmux.Db.{
  EmailRecord, Event, Json, ProcessorJob, Status, abandoned, completed, failed, i32_max,
}
use mailmux.Db.Invariant.{IsValid}
use mailmux.Db.Jobs.{get_job_by_id, is_runnable}
use mailmux.Db.Queue.{claim_job, claimed}
use mailmux.Db.View.{View, assign, view}
use mailmux.Processor.{Outcome, ProcessorMetric, ProcessorOutput, answered, failure, timed_out}
use mailmux.Processor.Effects.{Env, World, inc_processor_runs, run_processor, settle_query, utc_now}
use mailmux.Processor.Registry.{Processor, RegisteredProcessor, require_processor_for_event}
use mailmux.Processor.Scheduler.{
  claimed_or_not, config_for, execute_job, execute_with, exhausted, finish, finish_output,
  handle_failure, max_retries_of, message_or_empty, record_metrics, record_success, settle_failure,
  update_status,
}
use mailmux.Processor.Scheduler.Settling.{
  Quiet, assign-assign, assign_self, claim_lem, failed_row, query-Quiet, update-view, written,
}

-- The row that an execution leaves, by the outcome of the processor: `tick` counts the queries, the
-- claim being the first; the result is written by the third step, or by the fourth on a failure.
unfoldable pub settled_row :
    Env → Option ProcessorConfig → ℕ → Outcome → ProcessorJob → ProcessorJob
settled_row env config tick (answered out) j =
    if out.success
    then written completed none none (env.to_value out) (env.clock (suc (suc tick))) j
    else failed_row config (message_or_empty out.message) (env.to_value out)
        (env.clock (suc (suc (suc tick)))) j
settled_row env config tick (failure e) j =
    failed_row config e none (env.clock (suc (suc (suc tick)))) j
settled_row env config tick timed_out j =
    failed_row config "execution timed out" none (env.clock (suc (suc (suc tick)))) j

module _ (env : Env) (quiet : Quiet env) (configs : List ProcessorConfig) where
  pub update_status-view :
      (id : ℕ) (status : Status) (error : Option String) (next_retry : Option ℕ) (out : Option Json)
      (w : World) (j : ProcessorJob)
      → view w.db id ≡ some j
      → view (update_status env configs id status error next_retry out w).1.db
        ≡ assign (view w.db) id (written status error next_retry out (env.clock w.tick) j)
  update_status-view id status error next_retry out w j e =
      let (db', h, seen') =
        update-view (env.clock w.tick) id status error next_retry out w.db j e in
      rw (query-Quiet env quiet) (rw h seen')

  handle_failure-view :
      (id : ℕ) (name message : String) (out : Option Json) (w : World) (j : ProcessorJob)
      → view w.db id ≡ some j
      → view (handle_failure env configs id name message out w).1.db
        ≡ assign
            (view w.db)
            id
            (failed_row (config_for name configs) message out (env.clock (suc w.tick)) j)
  unfolding handle_failure failed_row get_job_by_id utc_now
  handle_failure-view id name message out w j e =
      ap (λ (r : Result (Option ProcessorJob) × World). view (go r).1.db)
        (query-Quiet env quiet (λ now db. ok (get_job_by_id id db, db)) w)
      ∙ rw e (elim (Bool-cases (exhausted (max_retries_of (config_for name configs)) j.attempts)) [
        | inl full ↦ rw full (update_status-view id abandoned (some message) none out fetched j e)
        | inr room ↦ rw room (update_status-view id failed (some message) _ out fetched j e)
      ])
    where
      fetched : World
      fetched = record w { tick = suc w.tick }

      go : Result (Option ProcessorJob) × World → Unit {0} × World
      go (r, w') = settle_failure env configs id name message out r w'

  record_success-view :
      (id : ℕ) (name : String) (out : ProcessorOutput) (serialized : Option Json) (w : World)
      (j : ProcessorJob)
      → view w.db id ≡ some j
      → view (record_success env configs id name out serialized w).1.db
        ≡ assign (view w.db) id (written completed none none serialized (env.clock w.tick) j)
  record_success-view id name out none w j e = update_status-view id completed none none none w j e
  record_success-view id name out (some v) w j e = go out.metrics
    where
      saved : Result (Unit {0}) × World
      saved = update_status env configs id completed none none (some v) w

      go :
          (ms : List ProcessorMetric)
          → view (record_metrics name ms (inc_processor_runs name "success" saved.1).1).1.db
            ≡ assign (view w.db) id (written completed none none (some v) (env.clock w.tick) j)
      go [] = update_status-view id completed none none (some v) w j e
      go (m ∷ ms) = update_status-view id completed none none (some v) w j e

  finish-view :
      (id : ℕ) (name : String) (outcome : Outcome) (tick : ℕ) (w : World) (j : ProcessorJob)
      → w.tick ≡ suc (suc tick)
      → view w.db id ≡ some j
      → view (finish env configs id name outcome w).1.db
        ≡ assign (view w.db) id (settled_row env (config_for name configs) tick outcome j)
  unfolding settled_row
  finish-view id name (answered out) tick w j t e = rw (← t) (go out.success)
    where
      go :
          (good : Bool)
          → view (finish_output env configs id name out good w).1.db
            ≡ assign (view w.db) id (
                if good
                then written completed none none (env.to_value out) (env.clock w.tick) j
                else failed_row
                    (config_for name configs)
                    (message_or_empty out.message)
                    (env.to_value out)
                    (env.clock (suc w.tick))
                    j)
      go true = record_success-view id name out (env.to_value out) w j e
      go false = handle_failure-view id name (message_or_empty out.message) (env.to_value out) w j e
  finish-view id name (failure m) tick w j t e = rw (← t) (handle_failure-view id name m none w j e)
  finish-view id name timed_out tick w j t e =
      rw (← t) (handle_failure-view id name "execution timed out" none w j e)

  -- On valid tables, with a database that answers and no other task on it: a job that may run, has
  -- room in its counter and whose processor accepts the event is executed once, its row becomes
  -- the one of the outcome (completed; failed with the time of the next attempt; or abandoned),
  -- with one attempt more, and no other row changes.
  pub execute_job-settles :
      (registry : List RegisteredProcessor) (id : ℕ) (name : String) (event : Event)
      (email : Option EmailRecord) (timeout : ℕ) (w : World) (j : ProcessorJob) (p : Processor)
      → IsValid w.db
      → view w.db id ≡ some j
      → is_runnable (env.clock w.tick) j ≡ true
      → j.attempts < i32_max
      → require_processor_for_event registry name event ≡ ok p
      → view (execute_job env configs registry id name event email timeout w).1.db
        ≡ assign (view w.db) id (
            settled_row env
              (config_for name configs)
              w.tick
              (env.process (suc w.tick) p event email timeout)
              (claimed (env.clock w.tick) j))
  unfolding execute_job run_processor
  execute_job-settles registry id name event email timeout w j p v e due room accepts =
      let (db', h, seen') = claim_lem (env.clock w.tick) id w.db j v e due room in
      let won : World = record w { db = db'; tick = suc w.tick } in
      let settled =
        settled_row env (config_for name configs) w.tick
          (env.process (suc w.tick) p event email timeout) (claimed (env.clock w.tick) j) in
      let started : World = record w { db = db'; tick = suc (suc w.tick) } in
      ap (λ r. view (execute_with env configs registry id name event email timeout r w).1.db)
        accepts
      ∙ ap (λ (r : Result Bool × World). view (go r).1.db)
          (query-Quiet env quiet (λ now db. claim_job now id db) w ∙ ap (settle_query w w.db) h)
      ∙ finish-view id name (env.process (suc w.tick) p event email timeout) w.tick started
          (claimed (env.clock w.tick) j) refl
          (ap (λ (u : View). u id) seen'
            ∙ assign_self (view w.db) id (claimed (env.clock w.tick) j))
      ∙ ap (λ (u : View). assign u id settled) seen'
      ∙ assign-assign (view w.db) id _ _
    where
      go : Result Bool × World → Unit {0} × World
      go (r, w') = claimed_or_not env configs id p event email timeout name r w'
