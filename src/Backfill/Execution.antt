-- ===== src/Backfill/Execution.antt =====
-- One email, and one chunk of emails (`execute_email_with_retries` and `execute_email_chunk` of
-- mailmux/src/backfill.rs).
use mailmux.Backfill.{
  BackfillEnv, EmailExecutionResult, ExecutionSettings, email_failed, email_succeeded, is_success,
  max_attempts, retry_delay_secs,
}
use mailmux.Base.{
  List, String, [], if◌then◌else◌, ltb, map, nat_eq, none, option_eq, some, string_eq, suc, true,
  zero, ℕ, ◌-◌, ◌<>◌, ◌∷◌,
}
use mailmux.Db.{EmailRecord, Event}
use mailmux.Processor.{Outcome, answered, failure, timed_out}

module _ (env : BackfillEnv) (settings : ExecutionSettings) where
  unfoldable pub build_backfill_event : EmailRecord → Event
  build_backfill_event e = record {
    id = 0;
    event_type = "email_arrived";
    account_id = e.account_id;
    mailbox_name = e.mailbox_name;
    email_id = some e.id;
    payload = env.to_json (record {
      backfill = true;
      email_id = e.id;
      uid = e.uid;
      subject = e.subject;
      sender = e.sender;
    });
    created_at = env.utc e;
  }

  abbrev pub attempt_outcome : EmailRecord → ℕ → Outcome
  attempt_outcome e attempt = env.answer (build_backfill_event e) e attempt

  abbrev pub last_error : Outcome → String
  last_error (answered out) = elim out.message [ none ↦ "processor reported failure" | some m ↦ m ]
  last_error (failure e) = e
  last_error timed_out = "processor timed out after " <> env.duration_text settings.timeout

  abbrev pub attempt_result :
      EmailRecord → ℕ → Outcome → EmailExecutionResult × List ℕ → EmailExecutionResult × List ℕ
  attempt_result e attempt outcome (result, slept) =
      if is_success outcome
      then (email_succeeded e.id attempt, [])
      else if ltb attempt (max_attempts settings)
      then (result, retry_delay_secs settings (attempt - 1) ∷ slept)
      else (result, slept)

  -- `for attempt in 1..=max_attempts`, with so many attempts left; and the seconds slept between them.
  unfoldable pub attempts_from : EmailRecord → ℕ → ℕ → String → EmailExecutionResult × List ℕ
  attempts_from e zero attempt error = (email_failed e.id (max_attempts settings) error, [])
  attempts_from e (suc left) attempt error =
      let outcome = attempt_outcome e attempt in
      attempt_result e attempt outcome (attempts_from e left (suc attempt) (last_error outcome))

  unfoldable pub execute_email_with_retries : EmailRecord → EmailExecutionResult × List ℕ
  execute_email_with_retries e = attempts_from e (max_attempts settings) 1 ""

  -- The emails of a chunk run at once; `join_all` gives their results in the order of the chunk.
  unfoldable pub execute_email_chunk : List EmailRecord → List EmailExecutionResult
  execute_email_chunk es = map (λ e. (execute_email_with_retries e).0) es
