-- ===== src/Replay.antt =====
-- `replay_event` of mailmux/src/main.rs: an operator runs the processors of an event once more.
pub mod Takeover
use mailmux.Base.{
  Bool, List, Option, Result, String, [], err, false, find?, if◌then◌else◌, nat_eq, none, ok,
  option_eq, some, string_eq, true, ℕ, ◌==◌, ◌∷◌,
}
use mailmux.Config.{ProcessorConfig}
use mailmux.Db.{EmailRecord, Event, ProcessorJob, completed, failed}
use mailmux.Db.Emails.{get_email_by_id}
use mailmux.Db.Events.{get_event_by_id}
use mailmux.Db.Jobs.{create_job, get_job_by_event_and_processor, reset_and_claim_job_for_replay}
use mailmux.Processor.{Outcome, answered, failure, timed_out}
use mailmux.Processor.Effects.{Env, M, fetch, query, return, run_processor, ◌>>=◌, ◌>>◌}
use mailmux.Processor.Registry.{
  Processor, RegisteredProcessor, from_config, processors_for_event, require_processor_for_event,
}
use mailmux.Processor.Scheduler.{timeout_of, update_status}

-- The job that another task created in between; an error if there is none after all.
abbrev pub vanished : Result (Option ProcessorJob) → Result ℕ
vanished (err e) = err e
vanished (ok none) = err "job vanished after create_job returned None"
vanished (ok (some j)) = ok j.id

-- `vec![registry.require_processor_for_event(…)?]`, or all that are eligible.
abbrev pub only_one : Result Processor → Result (List Processor)
only_one (err e) = err e
only_one (ok p) = ok (p ∷ [])

abbrev pub some_eligible : List Processor → Result (List Processor)
some_eligible [] = err "no eligible processors"
some_eligible (p ∷ ps) = ok (p ∷ ps)

unfoldable pub replay_processors :
    List RegisteredProcessor → Option String → Event → Result (List Processor)
replay_processors registry (some name) event =
    only_one (require_processor_for_event registry name event)
replay_processors registry none event = some_eligible (processors_for_event registry event)

-- The first configuration of that name.
unfoldable pub replay_timeout : List ProcessorConfig → String → ℕ
replay_timeout configs name = timeout_of (find? (λ c. c.name == name) configs)

module _ (env : Env) (configs : List ProcessorConfig) where
  abbrev pub created_id : ℕ → String → Result (Option ℕ) → M (Result ℕ)
  created_id event_id name (err e) = return (err e)
  created_id event_id name (ok (some id)) = return (ok id)
  created_id event_id name (ok none) = do
    job ← fetch env (λ now db. get_job_by_event_and_processor event_id name db)
    return (vanished job)

  abbrev pub existing_id : ℕ → String → Result (Option ProcessorJob) → M (Result ℕ)
  existing_id event_id name (err e) = return (err e)
  existing_id event_id name (ok (some j)) = return (ok j.id)
  existing_id event_id name (ok none) = do
    created ← query env (λ now db. create_job now event_id name db)
    created_id event_id name created

  unfoldable pub replay_job_id : ℕ → String → M (Result ℕ)
  replay_job_id event_id name = do
    job ← fetch env (λ now db. get_job_by_event_and_processor event_id name db)
    existing_id event_id name job

  abbrev pub settle_replay : ℕ → Outcome → M (Unit {0})
  settle_replay id (answered out) = do
    _ ←
        update_status env configs id (if out.success then completed else failed) out.message none
          (env.to_value out)
    return tt
  settle_replay id (failure e) = do
    _ ← update_status env configs id failed (some e) none none
    return tt
  settle_replay id timed_out = do
    _ ← update_status env configs id failed (some "timed out") none none
    return tt

  abbrev pub replay_claimed :
      ℕ → Processor → Event → Option EmailRecord → Result Bool → M (Result (Unit {0}))
  replay_claimed id p event email (ok true) = do
    outcome ← run_processor env p event email (replay_timeout configs p.name)
    settle_replay id outcome
    return (ok tt)
  replay_claimed id p event email (ok false) = return (ok tt)
  replay_claimed id p event email (err e) = return (ok tt)

  unfoldable pub replay_job : Processor → Event → Option EmailRecord → ℕ → M (Result (Unit {0}))
  replay_job p event email id = do
    won ← query env (λ now db. ok (reset_and_claim_job_for_replay now id db))
    replay_claimed id p event email won

  abbrev pub replay_with : Processor → Event → Option EmailRecord → Result ℕ → M (Result (Unit {0}))
  replay_with p event email (err e) = return (err e)
  replay_with p event email (ok id) = replay_job p event email id

  unfoldable pub replay_all :
      ℕ → Event → Option EmailRecord → List Processor → M (Result (Unit {0}))
  replay_all event_id event email [] = return (ok tt)
  replay_all event_id event email (p ∷ ps) = do
    id ← replay_job_id event_id p.name
    ended ← replay_with p event email id
    elim ended [ err e ↦ return (err e) | ok u ↦ replay_all event_id event email ps ]

  abbrev pub replay_chosen :
      ℕ → Event → Option EmailRecord → Result (List Processor) → M (Result (Unit {0}))
  replay_chosen event_id event email (err e) = return (err e)
  replay_chosen event_id event email (ok ps) = replay_all event_id event email ps

  abbrev pub replay_read :
      ℕ → Option String → Event → Result (Option EmailRecord) → M (Result (Unit {0}))
  replay_read event_id chosen event (err e) = return (err e)
  replay_read event_id chosen event (ok email) =
      replay_chosen event_id event email (replay_processors (from_config configs) chosen event)

  abbrev pub read_email : Option ℕ → M (Result (Option EmailRecord))
  read_email none = return (ok none)
  read_email (some id) = fetch env (λ now db. get_email_by_id id db)

  abbrev pub replay_found : ℕ → Option String → Result (Option Event) → M (Result (Unit {0}))
  replay_found event_id chosen (err e) = return (err e)
  replay_found event_id chosen (ok none) = return (err "event not found")
  replay_found event_id chosen (ok (some event)) = do
    email ← read_email event.email_id
    replay_read event_id chosen event email

  unfoldable pub replay_event : ℕ → Option String → M (Result (Unit {0}))
  replay_event event_id chosen = do
    event ← fetch env (λ now db. get_event_by_id event_id db)
    replay_found event_id chosen event
