-- ===== src/Tests/Scheduling.antt =====
-- The scheduler.
use mailmux.Base.{
  [], any, arith, nat_eq, none, ok, option_eq, refl, some, string_eq, suc, true, ◌∷◌, ◌≡◌,
}
use mailmux.Db.{ProcessorJob, job_at}
use mailmux.Db.Jobs.{is_runnable}
use mailmux.Db.Queue.{claimed}
use mailmux.Db.View.{assign, view}
use mailmux.Processor.{timed_out}
use mailmux.Processor.Registry.{
  Processor, command, from_config, processors_for_event, require_processor_for_event,
}
use mailmux.Processor.Registry.Eligibility.{has_name, is_ok, require-processors_for_event}
use mailmux.Processor.Scheduler.{backoff_delay, config_for, execute_job}
use mailmux.Processor.Scheduler.Backoff.{backoff_delay-schedule_entry, schedule_entry}
use mailmux.Processor.Scheduler.Execution.{execute_job-settles, settled_row}
use mailmux.Processor.Scheduler.Retries.{Ends, execute_job-Ends}
use mailmux.Processor.Scheduler.Settling.{failed_row}
use mailmux.Tests.Samples.{
  arrived, calm, calm-Quiet, failed_job, sample_configs, sample_configs-Distinct, sample_db,
  sample_db-IsValid, start,
}

require-processors_for_event_example :
    is_ok (require_processor_for_event (from_config sample_configs) "mailtx" arrived)
    ≡ any (has_name "mailtx") (processors_for_event (from_config sample_configs) arrived)
require-processors_for_event_example =
    require-processors_for_event sample_configs "mailtx" arrived sample_configs-Distinct

mailtx_processor : Processor
mailtx_processor = record {
  name = "mailtx";
  subscribed_events = "email_arrived" ∷ [];
  kind = command;
}

mailtx_offered :
    require_processor_for_event (from_config sample_configs) "mailtx" arrived ≡ ok mailtx_processor
unfolding require_processor_for_event from_config string_eq mailtx_processor
mailtx_offered = refl

failed_job-found : view sample_db 2 ≡ some failed_job
unfolding job_at nat_eq
failed_job-found = refl

failed_job-due : is_runnable (calm.clock start.tick) failed_job ≡ true
unfolding is_runnable
failed_job-due = refl

execute_job-settles_example :
    view
      (execute_job calm sample_configs
        (from_config sample_configs)
        2
        "mailtx"
        arrived
        none
        30
        start).1.db
    ≡ assign (view start.db) 2 (
        settled_row calm
          (config_for "mailtx" sample_configs)
          0
          (calm.process 1 mailtx_processor arrived none 30)
          (claimed (calm.clock 0) failed_job))
execute_job-settles_example =
    execute_job-settles calm calm-Quiet sample_configs (from_config sample_configs) 2 "mailtx"
      arrived none 30 start failed_job mailtx_processor sample_db-IsValid failed_job-found
      failed_job-due (omega arith) mailtx_offered

-- The second failure of three waits the second delay of the schedule.
retried_later :
    (settled_row calm
      (config_for "mailtx" sample_configs)
      0
      timed_out
      (claimed 200 failed_job)).next_retry_at
    ≡ some 263
unfolding settled_row failed_row backoff_delay config_for nat_eq string_eq
retried_later = refl

backoff_delay-schedule_entry_example :
    backoff_delay 3 (10 ∷ 60 ∷ []) ≡ schedule_entry (10 ∷ 60 ∷ []) 2
backoff_delay-schedule_entry_example = backoff_delay-schedule_entry (10 ∷ 60 ∷ []) 2

execute_job-Ends_example :
    (row : ProcessorJob) × ((view
          (execute_job calm sample_configs
            (from_config sample_configs)
            2
            "mailtx"
            arrived
            none
            30
            start).1.db
          2
        ≡ some row)
      × (Ends
            (config_for "mailtx" sample_configs)
            (calm.process 1 mailtx_processor arrived none 30)
            (calm.clock 3)
            failed_job
            row
          × (row.attempts ≡ suc failed_job.attempts)))
execute_job-Ends_example =
    execute_job-Ends calm calm-Quiet sample_configs (from_config sample_configs) 2 "mailtx" arrived
      none 30 start failed_job mailtx_processor sample_db-IsValid failed_job-found failed_job-due
      (omega arith) mailtx_offered
