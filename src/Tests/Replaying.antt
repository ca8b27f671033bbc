-- ===== src/Tests/Replaying.antt =====
-- A replay of the failed job of the samples, whose processor times out again.
use mailmux.Base.{
  [], false, if◌then◌else◌, nat_eq, none, ok, option_eq, refl, some, string_eq, ◌∷◌, ◌≡◌,
}
use mailmux.Db.{ProcessorJob, event_at, job_at}
use mailmux.Db.Events.{get_event_by_id}
use mailmux.Db.Jobs.{
  get_job_by_event_and_processor, is_runnable, replayed, reset_and_claim_job_for_replay,
  update_job_status,
}
use mailmux.Db.Refinement.{is_idle}
use mailmux.Db.View.{assign, view}
use mailmux.Processor.Effects.{query, run_processor}
use mailmux.Processor.Registry.{Processor, command, from_config, require_processor_for_event}
use mailmux.Replay.{
  replay_all, replay_event, replay_job, replay_job_id, replay_processors, replay_timeout,
}
use mailmux.Replay.Takeover.{replay_job-not_runnable, replay_job-settles, replay_row}
use mailmux.Tests.Samples.{
  arrived, calm, calm-Quiet, failed_job, sample_configs, sample_db-IsValid, start,
}

abbrev mailtx : Processor
mailtx = record { name = "mailtx"; subscribed_events = "email_arrived" ∷ []; kind = command }

failed_job-there : view start.db 2 ≡ some failed_job
unfolding job_at nat_eq
failed_job-there = refl

replay_job-settles_example :
    view (replay_job calm sample_configs mailtx arrived none 2 start).1.db ≡ (
      if is_idle failed_job
      then assign (view start.db) 2 (
          replay_row calm start.tick
            (calm.process 1 mailtx arrived none (replay_timeout sample_configs "mailtx"))
            (replayed (calm.clock start.tick) failed_job))
      else view start.db)
replay_job-settles_example =
    replay_job-settles calm calm-Quiet sample_configs mailtx arrived none 2 start failed_job
      sample_db-IsValid failed_job-there

replay_job-not_runnable_example :
    (row : ProcessorJob) × ((view
          (replay_job calm sample_configs mailtx arrived none 2 start).1.db
          2
        ≡ some row)
      × (is_runnable 1000 row ≡ false))
replay_job-not_runnable_example =
    replay_job-not_runnable calm calm-Quiet sample_configs mailtx arrived none 2 start failed_job
      sample_db-IsValid failed_job-there refl 1000

-- The processor named on the command line is run, and its job's row says so.
replayed_all : (replay_event calm sample_configs 1 (some "mailtx") start).0 ≡ ok tt
unfolding replay_event get_event_by_id event_at replay_processors require_processor_for_event
    from_config replay_all replay_job_id get_job_by_event_and_processor replay_job
    reset_and_claim_job_for_replay update_job_status query run_processor replay_timeout nat_eq
    string_eq
replayed_all = refl
