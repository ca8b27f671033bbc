-- ===== src/Processor/Scheduler/Retries.antt =====
-- How often the scheduler executes a job (`handle_failure` of mailmux/src/processor/scheduler.rs).
use mailmux.Base.{
  Bool, Bool-cases, List, Option, String, ap, arith, false, inl, inr, nat_eq, none, ok, option_eq,
  refl, some, string_eq, suc, true, ℕ, ◌+◌, ◌<◌, ◌∙◌, ◌≡◌, ◌≤◌, ◌⊎◌,
}
use mailmux.Config.{ProcessorConfig}
use mailmux.Db.{EmailRecord, Event, Json, ProcessorJob, abandoned, completed, failed, i32_max}
use mailmux.Db.Invariant.{IsValid}
use mailmux.Db.Jobs.{is_runnable}
use mailmux.Db.Queue.{claimed}
use mailmux.Db.View.{View, view}
use mailmux.Processor.{Outcome, answered, failure, timed_out}
use mailmux.Processor.Effects.{Env, World}
use mailmux.Processor.Registry.{Processor, RegisteredProcessor, require_processor_for_event}
use mailmux.Processor.Scheduler.{
  backoff_of, config_for, execute_job, exhausted, max_retries_of, message_or_empty,
}
use mailmux.Processor.Scheduler.Backoff.{backoff_delay-schedule_entry, schedule_entry}
use mailmux.Processor.Scheduler.Execution.{execute_job-settles, settled_row}
use mailmux.Processor.Scheduler.Settling.{Quiet, assign_self, failed_row}

abbrev pub is_success : Outcome → Bool
is_success (answered out) = out.success
is_success (failure m) = false
is_success timed_out = false

-- The three ends of an execution that started with the row `before`: the processor succeeded; the
-- attempts are used up, or there were none to use; or there is an attempt left, and the time of it,
-- counted from `now` by the entry of the schedule for the attempts before this one.
pub data Ends (config : Option ProcessorConfig) (outcome : Outcome) (now : ℕ)
    (before after : ProcessorJob) : Type 0 where
  succeeded :
      is_success outcome ≡ true
      → after.status ≡ completed
      → after.next_retry_at ≡ none
      → Ends config outcome now before after
  given_up :
      is_success outcome ≡ false
      → (max_retries_of config ≡ 0) ⊎ (max_retries_of config ≤ suc before.attempts)
      → after.status ≡ abandoned
      → after.next_retry_at ≡ none
      → Ends config outcome now before after
  to_retry :
      is_success outcome ≡ false
      → suc before.attempts < max_retries_of config
      → after.status ≡ failed
      → after.next_retry_at ≡ some (now + schedule_entry (backoff_of config) before.attempts)
      → Ends config outcome now before after

module _ (config : Option ProcessorConfig) (outcome : Outcome) (now at : ℕ) (j : ProcessorJob)
    (message : String) (out : Option Json) where
  failed_row-Ends :
      is_success outcome ≡ false
      → Ends config outcome at j (failed_row config message out at (claimed now j))
  unfolding failed_row nat_eq
  failed_row-Ends h = elim (Bool-cases (exhausted (max_retries_of config) (suc j.attempts))) [
    | inl full ↦ rw full (given_up h (ground arith) refl refl)
    | inr room ↦ rw room (
        to_retry h (ground arith) refl
          (ap (λ d. some (at + d)) (backoff_delay-schedule_entry (backoff_of config) j.attempts)))
  ]

  failed_row-attempts : (failed_row config message out at (claimed now j)).attempts ≡ suc j.attempts
  unfolding failed_row
  failed_row-attempts = ground arith

settled_row-Ends :
    (env : Env) (config : Option ProcessorConfig) (tick now : ℕ) (outcome : Outcome)
    (j : ProcessorJob)
    → Ends config outcome
        (env.clock (suc (suc (suc tick))))
        j
        (settled_row env config tick outcome (claimed now j))
      × ((settled_row env config tick outcome (claimed now j)).attempts ≡ suc j.attempts)
unfolding settled_row
settled_row-Ends env config tick now (answered out) j = elim (Bool-cases out.success) [
  | inl good ↦ simp good (succeeded good refl refl, refl)
  | inr bad ↦ simp bad (
    failed_row-Ends config (answered out) now _ j (message_or_empty out.message) (env.to_value out)
        bad,
    failed_row-attempts config (answered out) now _ j _ (env.to_value out),
  )
]
settled_row-Ends env config tick now (failure m) j = (
  failed_row-Ends config (failure m) now _ j m none refl,
  failed_row-attempts config (failure m) now _ j m none,
)
settled_row-Ends env config tick now timed_out j = (
  failed_row-Ends config timed_out now _ j _ none refl,
  failed_row-attempts config timed_out now _ j _ none,
)

-- On valid tables, with a database that answers and no other task on it, the execution of a runnable
-- job with room in its counter, whose processor accepts the event, leaves its row completed without a
-- further attempt if the processor succeeded; if not, abandoned when `max_retries` is 0 or not more
-- than the attempts, this one counted, and else failed, with the next attempt due after the entry of
-- the retry schedule for the attempts before this one. The attempts are one more than before.
pub execute_job-Ends :
    (env : Env)
    → Quiet env
    → (configs : List ProcessorConfig) (registry : List RegisteredProcessor) (id : ℕ)
      (name : String) (event : Event) (email : Option EmailRecord) (timeout : ℕ) (w : World)
      (j : ProcessorJob) (p : Processor)
    → IsValid w.db
    → view w.db id ≡ some j
    → is_runnable (env.clock w.tick) j ≡ true
    → j.attempts < i32_max
    → require_processor_for_event registry name event ≡ ok p
    → (row : ProcessorJob) × ((view
            (execute_job env configs registry id name event email timeout w).1.db
            id
          ≡ some row)
        × (Ends
              (config_for name configs)
              (env.process (suc w.tick) p event email timeout)
              (env.clock (suc (suc (suc w.tick))))
              j
              row
            × (row.attempts ≡ suc j.attempts)))
execute_job-Ends env quiet configs registry id name event email timeout w j p v e due room accepts =
    let outcome = env.process (suc w.tick) p event email timeout in
    let row =
      settled_row env (config_for name configs) w.tick outcome (claimed (env.clock w.tick) j) in
    (
      row,
      (
        ap (λ (u : View). u id)
              (execute_job-settles env quiet configs registry id name event email timeout w j p v e
                due room accepts)
            ∙ assign_self (view w.db) id row,
        settled_row-Ends env (config_for name configs) w.tick (env.clock w.tick) outcome j,
      ),
    )
