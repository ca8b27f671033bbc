-- ===== src/Backfill/Command.antt =====
-- The command `mailmux backfill` (`run` of mailmux/src/backfill.rs): what is checked before the run,
-- and how the command ends.
use mailmux.Backfill.{
  BackfillArgs, BackfillEnv, BackfillSummary, ExecutionSettings, Progress, cap_selected, next_page,
  validate,
}
use mailmux.Backfill.Pages.{run_backfill}
use mailmux.Base.{
  Bool, List, Option, Result, String, any, err, find?, if◌then◌else◌, ltb, nat_eq, none, not, ok,
  option_eq, some, string_eq, suc, ℕ, ◌==◌,
}
use mailmux.Config.{ProcessorConfig}
use mailmux.Db.{Db}
use mailmux.Db.Emails.{EmailBackfillFilter, count_emails_for_backfill}
use mailmux.Processor.Registry.{Processor, from_config, processor_by_name}

-- What the checks give: the processor, its settings for this run, and the selection.
pub record Plan : Type 0 where
  pub processor : Processor
  pub settings : ExecutionSettings
  pub filter : EmailBackfillFilter

abbrev pub is_config_of : String → ProcessorConfig → Bool
is_config_of name c = c.name == name

abbrev pub effective_concurrency : Option ℕ → ProcessorConfig → ℕ
effective_concurrency none c = c.concurrency
effective_concurrency (some n) c = n

abbrev pub plan_of : BackfillArgs → ProcessorConfig → Processor → ℕ → Plan
plan_of args c p n = record {
  processor = p;
  settings = record {
    timeout = c.timeout_secs;
    max_retries = c.max_retries;
    retry_backoff_secs = c.retry_backoff_secs;
    concurrency = n;
    fail_fast = args.fail_fast;
  };
  filter = record {
    after = args.after;
    before = args.before;
    accounts = args.accounts;
    mailboxes = args.mailboxes;
    email_ids = args.email_ids;
    processor_sources = c.sources;
  };
}

abbrev pub check_concurrency : BackfillArgs → ProcessorConfig → Processor → ℕ → Result Plan
check_concurrency args c p n =
    if n == 0 then err "backfill concurrency must be greater than zero" else ok (plan_of args c p n)

abbrev pub check_processor : BackfillArgs → ProcessorConfig → Option Processor → Result Plan
check_processor args c none = err "processor is not available in the runtime registry"
check_processor args c (some p) =
    if not (any (λ e. e == "email_arrived") p.subscribed_events)
    then err "processor is not subscribed to event type 'email_arrived'"
    else check_concurrency args c p (effective_concurrency args.concurrency c)

abbrev pub check_config : List ProcessorConfig → BackfillArgs → Option ProcessorConfig → Result Plan
check_config configs args none = err "processor is not configured"
check_config configs args (some c) =
    if not c.enabled
    then err "processor is disabled in configuration"
    else check_processor args c (processor_by_name (from_config configs) args.processor)

abbrev pub check_args : List ProcessorConfig → BackfillArgs → Result (Unit {0}) → Result Plan
check_args configs args (err e) = err e
check_args configs args (ok u) =
    check_config configs args (find? (is_config_of args.processor) configs)

-- The checks of `run`, up to the connection to the database.
unfoldable pub prepare : List ProcessorConfig → BackfillArgs → Result Plan
prepare configs args = check_args configs args (validate args)

-- The command fails when an email failed for good, or a page could not be fetched.
abbrev pub conclude : Progress × Option String → Result BackfillSummary
conclude (p, some e) = err e
conclude (p, none) =
    if ltb 0 p.summary.failed
    then err "backfill finished with selected emails permanently failed"
    else ok p.summary

abbrev pub conclude_run : Option (Progress × Option String) → Option (Result BackfillSummary)
conclude_run none = none
conclude_run (some ended) = some (conclude ended)

-- The first query counts, the others fetch pages.
abbrev pub run_plan :
    (Processor → BackfillEnv)
    → (ℕ → Option Db)
    → BackfillArgs
    → Result Plan
    → Option (Result BackfillSummary)
run_plan env tables args (err e) = some (err e)
run_plan env tables args (ok plan) = elim (tables 0) [
  | none ↦ some (err "database error")
  | some db ↦ conclude_run (
      run_backfill (env plan.processor) plan.settings
        (next_page plan.filter (λ request. tables (suc request)))
        (cap_selected (count_emails_for_backfill plan.filter db) args.limit) args.dry_run)
]

unfoldable pub run :
    (Processor → BackfillEnv)
    → (ℕ → Option Db)
    → List ProcessorConfig
    → BackfillArgs
    → Option (Result BackfillSummary)
run env tables configs args = run_plan env tables args (prepare configs args)
