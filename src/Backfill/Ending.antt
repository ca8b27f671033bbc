-- ===== src/Backfill/Ending.antt =====
-- How `mailmux backfill` ends (`run` of mailmux/src/backfill.rs): exit status and summary.
use mailmux.Backfill.{BackfillArgs, BackfillEnv, BackfillSummary, Progress, cap_selected, next_page}
use mailmux.Backfill.Accounting.{IsAccounted, IsPaged, run_backfill-IsAccounted}
use mailmux.Backfill.Admission.{IsAdmitted, prepare-IsAdmitted}
use mailmux.Backfill.Command.{Plan, conclude, conclude_run, prepare, run, run_plan}
use mailmux.Backfill.Counting.{IsBalanced}
use mailmux.Backfill.Pages.{run_backfill}
use mailmux.Base.{
  Bool, List, Option, Result, String, ap, arith, err, false, if◌then◌else◌, length, length-take,
  ltb, none, ok, ok-injective, refl, select, some, subst, suc, take, true, ℕ, ◌&&◌, ◌+◌, ◌≡◌, ◌≤◌,
}
use mailmux.Config.{ProcessorConfig}
use mailmux.Db.{Db, EmailRecord}
use mailmux.Db.Emails.{
  EmailBackfillFilter, append_backfill_filters, count_emails_for_backfill, get_email_backfill_page,
  sort_emails,
}
use mailmux.Processor.Registry.{Processor}

next_page-IsPaged :
    (filter : EmailBackfillFilter) (tables : ℕ → Option Db) → IsPaged (next_page filter tables)
unfolding next_page get_email_backfill_page
next_page-IsPaged filter tables request last size es = go (tables request)
  where
    beyond : EmailRecord → Bool
    beyond e = ltb last e.id && append_backfill_filters filter e

    go :
        (o : Option Db)
        → (let r : Result (List EmailRecord) = elim o [
          | none ↦ err "database error"
          | some db ↦ ok (take size (sort_emails (select beyond db.emails)))
        ] in
            r ≡ ok es)
        → length es ≤ size
    go none h = absurd (cc h)
    go (some db) h =
        subst (λ fs. length fs ≤ size) (ok-injective h)
          (omega (arith, length-take size (sort_emails (select beyond db.emails))))

-- What a command that succeeds says of its run.
abbrev pub IsReported : Result BackfillSummary → Type 0
IsReported (err e) = Unit
IsReported (ok s) =
    (s.failed ≡ 0) × ((s.processed ≡ s.succeeded) × (s.processed + s.skipped ≡ s.selected))

conclude-IsReported :
    (selected : ℕ) (p : Progress) (error : Option String)
    → IsBalanced p
    → p.summary.selected ≡ selected
    → p.summary.processed + p.summary.skipped ≡ selected
    → IsReported (conclude (p, error))
conclude-IsReported selected p (some e) b s t = tt
conclude-IsReported selected p none b s t = go (ltb 0 p.summary.failed) refl
  where
    go :
        (c : Bool)
        → ltb 0 p.summary.failed ≡ c
        → (let r : Result BackfillSummary =
              if c
              then err "backfill finished with selected emails permanently failed"
              else ok p.summary in
            IsReported r)
    go true h = tt
    go false h =
        let z : p.summary.failed ≡ 0 = ground arith in
        (z, (omega (arith, b.ends, z), omega (arith, s, t)))

-- The command has an end, of which it says no more than it may.
abbrev pub EndsReported : Option (Result BackfillSummary) → Type 0
EndsReported ended = (r : Result BackfillSummary) × ((ended ≡ some r) × IsReported r)

conclude_run-EndsReported :
    (selected : ℕ) (ended : Option (Progress × Option String))
    → IsAccounted selected ended
    → EndsReported (conclude_run ended)
conclude_run-EndsReported selected ended (p, (error, (e, (b, (s, t))))) =
    (conclude (p, error), (ap conclude_run e, conclude-IsReported selected p error b s t))

-- Whatever the processor answers and whatever becomes of the tables, a backfill that is no dry run
-- ends; and if it ends without an error, no email failed, every processed one succeeded, and the
-- processed and the skipped ones are all that were selected.
pub run-EndsReported :
    (env : Processor → BackfillEnv) (tables : ℕ → Option Db) (configs : List ProcessorConfig)
    (args : BackfillArgs)
    → args.dry_run ≡ false
    → EndsReported (run env tables configs args)
unfolding run
run-EndsReported env tables configs args wet =
    go (prepare configs args) (λ plan h. prepare-IsAdmitted configs args plan h)
  where
    counted :
        (plan : Plan) (db : Db)
        → IsAdmitted configs args plan
        → (dry : Bool) → dry ≡ false
        → EndsReported (
            conclude_run (
              run_backfill
                (env plan.processor)
                plan.settings
                (next_page plan.filter (λ request. tables (suc request)))
                (cap_selected (count_emails_for_backfill plan.filter db) args.limit)
                dry))
    counted plan db admitted true h = absurd (cc h)
    counted plan db admitted false h =
        conclude_run-EndsReported
          (cap_selected (count_emails_for_backfill plan.filter db) args.limit)
          (run_backfill (env plan.processor) plan.settings
            (next_page plan.filter (λ request. tables (suc request)))
            (cap_selected (count_emails_for_backfill plan.filter db) args.limit) false)
          (run_backfill-IsAccounted (env plan.processor) plan.settings
            (next_page plan.filter (λ request. tables (suc request))) admitted.concurrent
            (next_page-IsPaged plan.filter (λ request. tables (suc request)))
            (cap_selected (count_emails_for_backfill plan.filter db) args.limit))

    first :
        (plan : Plan) (o : Option Db)
        → IsAdmitted configs args plan
        → EndsReported (elim o [
          | none ↦ some (err "database error")
          | some db ↦ conclude_run (
              run_backfill
                (env plan.processor)
                plan.settings
                (next_page plan.filter (λ request. tables (suc request)))
                (cap_selected (count_emails_for_backfill plan.filter db) args.limit)
                args.dry_run)
        ])
    first plan none admitted = (err "database error", (refl, tt))
    first plan (some db) admitted = counted plan db admitted args.dry_run wet

    go :
        (r : Result Plan)
        → ((plan : Plan) → r ≡ ok plan → IsAdmitted configs args plan)
        → EndsReported (run_plan env tables args r)
    go (err e) k = (err e, (refl, tt))
    go (ok plan) k = first plan (tables 0) (k plan refl)
