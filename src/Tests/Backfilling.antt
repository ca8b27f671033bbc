-- ===== src/Tests/Backfilling.antt =====
-- A backfill of three stored emails, one of which the processor refuses once.
use mailmux.Backfill.{
  BackfillArgs, BackfillEnv, Progress, cap_selected, chunks, count_results, max_attempts, next_page,
  retry_delay_secs, validate,
}
use mailmux.Backfill.Accounting.{IsAccounted, IsPaged, run_backfill-IsAccounted}
use mailmux.Backfill.Admission.{IsAdmitted, prepare-IsAdmitted, sources_clause-matches_source}
use mailmux.Backfill.Attempts.{
  IsVerdict, attempts_of, execute_email-IsVerdict, execute_email-waits,
  retry_delay_secs-backoff_delay, waits,
}
use mailmux.Backfill.Command.{Plan, plan_of, prepare, run}
use mailmux.Backfill.Ending.{EndsReported, run-EndsReported}
use mailmux.Backfill.Execution.{
  attempts_from, build_backfill_event, execute_email_chunk, execute_email_with_retries,
}
use mailmux.Backfill.Pages.{run_backfill, run_chunks, run_pages}
use mailmux.Backfill.Paging.{matching, result_of}
use mailmux.Backfill.Selection.{run_backfill-results}
use mailmux.Base.{
  List, Result, String, [], arith, err, false, if◌then◌else◌, length, length-take, map, nat_eq,
  none, ok, ok-injective, option_eq, refl, some, string_eq, subst, suc, take, true, zero, ℕ, ◌&&◌,
  ◌-◌, ◌==◌, ◌∷◌, ◌≡◌, ◌≤◌,
}
use mailmux.Config.{matches_source}
use mailmux.Db.{Db, EmailRecord}
use mailmux.Db.Emails.{
  append_backfill_filters, count_emails_for_backfill, get_email_backfill_page, insert_email,
  sort_emails, sources_clause,
}
use mailmux.Db.Invariant.{IsValid}
use mailmux.Processor.{Outcome, ProcessorOutput, answered}
use mailmux.Processor.Registry.{command, from_config, processor_by_name}
use mailmux.Processor.Scheduler.{backoff_delay}
use mailmux.Tests.Samples.{processor_config, sample_configs, sample_db, sample_db-IsValid}

abbrev stored : ℕ → String → EmailRecord
stored id mailbox = record {
  id = id;
  account_id = "work";
  mailbox_name = mailbox;
  uid = id;
  message_id = none;
  subject = none;
  sender = none;
  recipients = none;
  date = some 50;
  flags = [];
  raw_message_path = "1.eml";
  size_bytes = none;
  created_at = 60;
  updated_at = 60;
}

abbrev stored_db : Db
stored_db = record sample_db {
  emails = stored 3 "INBOX" ∷ stored 1 "INBOX" ∷ stored 2 "Archive" ∷ [];
  next_email = 4;
}

stored_db-IsValid : IsValid stored_db
unfolding nat_eq string_eq
stored_db-IsValid = record {
  jobs_keyed = sample_db-IsValid.jobs_keyed;
  jobs_unique = sample_db-IsValid.jobs_unique;
  jobs_below = sample_db-IsValid.jobs_below;
  jobs_refer = sample_db-IsValid.jobs_refer;
  events_keyed = sample_db-IsValid.events_keyed;
  events_below = sample_db-IsValid.events_below;
  emails_keyed = (refl, (refl, (refl, tt)));
  emails_unique = (refl, (refl, (refl, tt)));
  emails_below = omega arith;
}

abbrev refused : ProcessorOutput
refused = record { success = false; message = none; metadata = none; metrics = [] }

abbrev accepted : ProcessorOutput
accepted = record { success = true; message = none; metadata = none; metrics = [] }

-- The first attempt at email 3 is refused.
abbrev sample_answer : ℕ → ℕ → Outcome
sample_answer id attempt = if id == 3 && attempt == 1 then answered refused else answered accepted

abbrev sample_env : BackfillEnv
sample_env = record {
  answer = λ event e attempt. sample_answer e.id attempt;
  to_json = λ payload. "{}";
  utc = λ e. 200;
  duration_text = λ secs. "30s";
}

abbrev sample_args : BackfillArgs
sample_args = record {
  processor = "mailtx";
  after = none;
  before = none;
  accounts = [];
  mailboxes = "INBOX" ∷ [];
  email_ids = [];
  all_emails = false;
  limit = none;
  concurrency = some 2;
  fail_fast = false;
  dry_run = false;
}

abbrev sample_plan : Plan
sample_plan =
    plan_of sample_args (processor_config "mailtx" 3)
      (record { name = "mailtx"; subscribed_events = "email_arrived" ∷ []; kind = command }) 2

admitted : prepare sample_configs sample_args ≡ ok sample_plan
unfolding prepare validate from_config processor_by_name nat_eq string_eq
admitted = refl

-- Two emails match, in the order of their ids; the second needs two attempts.
backfilled :
    run (λ p. sample_env) (λ n. some stored_db) sample_configs sample_args
    ≡ some (ok (record { selected = 2; processed = 2; succeeded = 2; failed = 0; skipped = 0 }))
unfolding run run_backfill run_pages run_chunks next_page prepare validate from_config
    processor_by_name nat_eq string_eq execute_email_chunk execute_email_with_retries attempts_from
    max_attempts count_results chunks get_email_backfill_page append_backfill_filters
    count_emails_for_backfill cap_selected sort_emails insert_email retry_delay_secs
    build_backfill_event
backfilled = refl

run-EndsReported_example :
    EndsReported (run (λ p. sample_env) (λ n. some stored_db) sample_configs sample_args)
run-EndsReported_example =
    run-EndsReported (λ p. sample_env) (λ n. some stored_db) sample_configs sample_args refl

run_backfill-results_example :
    (q : Progress) × ((run_backfill sample_env sample_plan.settings
          (next_page sample_plan.filter (λ request. some stored_db))
          (cap_selected (count_emails_for_backfill sample_plan.filter stored_db) none)
          false
        ≡ some (q, none))
      × (q.results
          ≡ map (result_of sample_env sample_plan.settings) (
              take
                (cap_selected (count_emails_for_backfill sample_plan.filter stored_db) none)
                (matching sample_plan.filter stored_db))))
run_backfill-results_example =
    run_backfill-results sample_env sample_plan.settings sample_plan.filter stored_db (omega arith)
      refl stored_db-IsValid (omega arith) none

-- A source of one page of two emails, which then cannot be reached.
abbrev short_source : ℕ → ℕ → ℕ → Result (List EmailRecord)
short_source zero last size = ok (take size (stored 1 "INBOX" ∷ stored 3 "INBOX" ∷ []))
short_source (suc request) last size = err "connection lost"

short_source-IsPaged : IsPaged short_source
short_source-IsPaged zero last size es h =
    subst (λ fs. length fs ≤ size) (ok-injective h)
      (omega (arith, length-take size (stored 1 "INBOX" ∷ stored 3 "INBOX" ∷ [])))
short_source-IsPaged (suc request) last size es h = absurd (cc h)

run_backfill-IsAccounted_example :
    IsAccounted 5 (run_backfill sample_env sample_plan.settings short_source 5 false)
run_backfill-IsAccounted_example =
    run_backfill-IsAccounted sample_env sample_plan.settings short_source (omega arith)
      short_source-IsPaged 5

execute_email-IsVerdict_example :
    IsVerdict sample_env sample_plan.settings
      (stored 3 "INBOX")
      (execute_email_with_retries sample_env sample_plan.settings (stored 3 "INBOX")).0
execute_email-IsVerdict_example =
    execute_email-IsVerdict sample_env sample_plan.settings (stored 3 "INBOX")

execute_email-waits_example :
    (execute_email_with_retries sample_env sample_plan.settings (stored 3 "INBOX")).1
    ≡ waits sample_env sample_plan.settings (stored 3 "INBOX") 0 (
        attempts_of sample_env sample_plan.settings
          (stored 3 "INBOX")
          (execute_email_with_retries sample_env sample_plan.settings (stored 3 "INBOX")).0
        - 1)
execute_email-waits_example = execute_email-waits sample_env sample_plan.settings (stored 3 "INBOX")

retry_delay_secs-backoff_delay_example :
    retry_delay_secs sample_plan.settings 4
    ≡ backoff_delay 5 sample_plan.settings.retry_backoff_secs
retry_delay_secs-backoff_delay_example = retry_delay_secs-backoff_delay sample_plan.settings 4

prepare-IsAdmitted_example : IsAdmitted sample_configs sample_args sample_plan
prepare-IsAdmitted_example = prepare-IsAdmitted sample_configs sample_args sample_plan admitted

sources_clause-matches_source_example :
    sources_clause (processor_config "mailtx" 3).sources (stored 1 "INBOX")
    ≡ matches_source (processor_config "mailtx" 3) "work" "INBOX"
sources_clause-matches_source_example =
    sources_clause-matches_source (processor_config "mailtx" 3) (stored 1 "INBOX")
