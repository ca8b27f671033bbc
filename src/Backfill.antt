-- ===== src/Backfill.antt =====
-- mailmux/src/backfill.rs: `mailmux backfill` hands stored emails to one processor, with retries, page
-- by page; and the checks of mailmux/src/cli.rs on its arguments. Elapsed time is left out.
pub mod Execution
pub mod Pages
pub mod Counting
pub mod Attempts
pub mod Accounting
pub mod Chunks
pub mod Order
pub mod Paging
pub mod Selection
pub mod Command
pub mod Admission
pub mod Ending
use mailmux.Base.{
  Bool, List, Option, Result, String, [], drop, err, false, get_elem?, if◌then◌else◌, leb, length,
  min, nat_eq, none, not, ok, option_eq, some, string_eq, suc, take, true, zero, ℕ, ◌&&◌, ◌++◌, ◌+◌,
  ◌||◌, ◌∷◌,
}
use mailmux.Db.{Db, EmailRecord, Event, Json}
use mailmux.Db.Emails.{EmailBackfillFilter, get_email_backfill_page}
use mailmux.Processor.{Outcome, answered, failure, timed_out}

abbrev pub u32_max : ℕ
u32_max = 4294967295

-- PAGE_SIZE
abbrev pub page_limit : ℕ
page_limit = 500

pub record BackfillArgs : Type 0 where
  pub processor : String
  pub after : Option ℕ
  pub before : Option ℕ
  pub accounts : List String
  pub mailboxes : List String
  pub email_ids : List ℕ
  pub all_emails : Bool
  pub limit : Option ℕ
  pub concurrency : Option ℕ
  pub fail_fast : Bool
  pub dry_run : Bool

pub record BackfillSummary : Type 0 where
  pub selected : ℕ
  pub processed : ℕ
  pub succeeded : ℕ
  pub failed : ℕ
  pub skipped : ℕ

pub record ExecutionSettings : Type 0 where
  pub timeout : ℕ
  pub max_retries : ℕ
  pub retry_backoff_secs : List ℕ
  pub concurrency : ℕ
  pub fail_fast : Bool

pub data EmailExecutionResult : Type 0 where
  email_succeeded : (email_id attempts : ℕ) → EmailExecutionResult
  email_failed : (email_id attempts : ℕ) (error : String) → EmailExecutionResult

-- The fields of the payload that marks the event as a backfill.
pub record BackfillPayload : Type 0 where
  pub backfill : Bool
  pub email_id : ℕ
  pub uid : ℕ
  pub subject : Option String
  pub sender : Option String

-- What is outside of the program: the processor's answer to an email on each attempt, `json!`,
-- `Utc::now()` and the text of a duration.
pub record BackfillEnv : Type 0 where
  pub answer : Event → EmailRecord → ℕ → Outcome
  pub to_json : BackfillPayload → Json
  pub utc : EmailRecord → ℕ
  pub duration_text : ℕ → String

-- A test for `Option::is_some` and for `!is_empty()`.
abbrev pub is_given {ℓ} : {A : Type ℓ} → Option A → Bool
is_given none = false
is_given (some a) = true

abbrev pub is_filled {ℓ} : {A : Type ℓ} → List A → Bool
is_filled [] = false
is_filled (a ∷ more) = true

abbrev pub has_filter : BackfillArgs → Bool
has_filter args =
    is_given args.after
    || (is_given args.before
        || (is_filled args.accounts || (is_filled args.mailboxes || is_filled args.email_ids)))

abbrev pub is_backwards : Option ℕ → Option ℕ → Bool
is_backwards none before = false
is_backwards (some after) none = false
is_backwards (some after) (some before) = leb before after

-- `BackfillArgs::validate`
unfoldable pub validate : BackfillArgs → Result (Unit {0})
validate args =
    if not (has_filter args) && not args.all_emails
    then err "backfill requires at least one selection filter or an explicit --all"
    else if is_backwards args.after args.before
    then err "invalid date range: --after must be strictly earlier than --before"
    else ok tt

unfoldable pub cap_selected : ℕ → Option ℕ → ℕ
cap_selected matched none = matched
cap_selected matched (some limit) = min matched limit

abbrev pub last_entry : List ℕ → Option ℕ
last_entry [] = none
last_entry (d ∷ []) = some d
last_entry (d ∷ e ∷ ds) = last_entry (e ∷ ds)

abbrev pub entry_or_last : Option ℕ → List ℕ → ℕ
entry_or_last (some delay) schedule = delay
entry_or_last none schedule = elim (last_entry schedule) [ none ↦ 60 | some delay ↦ delay ]

unfoldable pub retry_delay_secs : ExecutionSettings → ℕ → ℕ
retry_delay_secs settings retry_index =
    entry_or_last (get_elem? settings.retry_backoff_secs retry_index) settings.retry_backoff_secs

-- `saturating_add(1)` on u32
unfoldable pub max_attempts : ExecutionSettings → ℕ
max_attempts settings = min (settings.max_retries + 1) u32_max

abbrev pub is_success : Outcome → Bool
is_success (answered out) = out.success
is_success (failure e) = false
is_success timed_out = false

-- `page.chunks(n)`, on fuel: every chunk takes one email at least.
abbrev pub chunks_of {ℓ} : {A : Type ℓ} → ℕ → ℕ → List A → List (List A)
chunks_of zero n xs = []
chunks_of (suc fuel) n [] = []
chunks_of (suc fuel) n (x ∷ xs) = take n (x ∷ xs) ∷ chunks_of fuel n (drop n (x ∷ xs))

unfoldable pub chunks {ℓ} : {A : Type ℓ} → ℕ → List A → List (List A)
chunks n xs = chunks_of (length xs) n xs

-- The summary so far, and the results in the order in which they are logged.
pub record Progress : Type 0 where
  pub summary : BackfillSummary
  pub results : List EmailExecutionResult

abbrev pub count_result : EmailExecutionResult → BackfillSummary → BackfillSummary
count_result (email_succeeded id n) s = record s {
  processed = suc s.processed;
  succeeded = suc s.succeeded;
}
count_result (email_failed id n e) s = record s {
  processed = suc s.processed;
  failed = suc s.failed;
}

unfoldable pub count_results : List EmailExecutionResult → Progress → Progress
count_results [] p = p
count_results (r ∷ rs) p =
    count_results rs
      (record { summary = count_result r p.summary; results = p.results ++ (r ∷ []) })

abbrev pub is_email_failed : EmailExecutionResult → Bool
is_email_failed (email_succeeded id n) = false
is_email_failed (email_failed id n e) = true

abbrev pub skip : ℕ → Progress → Progress
skip n p = record p { summary = record p.summary { skipped = n } }

abbrev pub last_id : EmailRecord → List EmailRecord → ℕ
last_id e [] = e.id
last_id e (f ∷ fs) = last_id f fs

-- `DbBackfillPageSource::next_page`: each request reads the tables as they are then, or is refused.
unfoldable pub next_page :
    EmailBackfillFilter → (ℕ → Option Db) → ℕ → ℕ → ℕ → Result (List EmailRecord)
next_page filter tables request last size = elim (tables request) [
  | none ↦ err "database error"
  | some db ↦ ok (get_email_backfill_page filter last size db)
]
