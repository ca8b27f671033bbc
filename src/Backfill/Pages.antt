-- ===== src/Backfill/Pages.antt =====
-- The loops over pages and chunks (`run_backfill` of mailmux/src/backfill.rs).
use mailmux.Backfill.{
  BackfillEnv, ExecutionSettings, Progress, chunks, count_results, is_email_failed, last_id,
  page_limit, skip,
}
use mailmux.Backfill.Execution.{execute_email_chunk}
use mailmux.Base.{
  Bool, List, Option, Result, String, [], any, err, false, if◌then◌else◌, length, min, nat_eq, none,
  ok, option_eq, some, string_eq, suc, true, zero, ℕ, ◌&&◌, ◌+◌, ◌-◌, ◌==◌, ◌∷◌,
}
use mailmux.Db.{EmailRecord}

module _ (env : BackfillEnv) (settings : ExecutionSettings) where
  -- `for chunk in page.chunks(concurrency)`: the progress, and whether to stop.
  unfoldable pub run_chunks : ℕ → List (List EmailRecord) → Progress → Progress × Bool
  run_chunks selected [] p = (p, false)
  run_chunks selected (c ∷ cs) p =
      let results = execute_email_chunk env settings c in
      let counted = count_results results p in
      let rest = run_chunks selected cs counted in
      if settings.fail_fast && any is_email_failed results
      then (skip (selected - counted.summary.processed) counted, true)
      else rest

  -- The rest of one round of the loop, after the page: how it goes on is `continue last_id remaining`.
  abbrev pub after_chunks :
      (Progress → Option (Progress × Option String))
      → Progress × Bool
      → Option (Progress × Option String)
  after_chunks continue (p, true) = some (p, none)
  after_chunks continue (p, false) = continue p

  abbrev pub turn_page :
      (ℕ → ℕ → Progress → Option (Progress × Option String))
      → ℕ
      → ℕ
      → Progress
      → Result (List EmailRecord)
      → Option (Progress × Option String)
  turn_page continue selected remaining p (err e) =
      some (skip (selected - p.summary.processed) p, some e)
  turn_page continue selected remaining p (ok []) =
      some (skip (p.summary.skipped + remaining) p, none)
  turn_page continue selected remaining p (ok (e ∷ es)) =
      after_chunks (continue (last_id e es) (remaining - length (e ∷ es)))
        (run_chunks selected (chunks settings.concurrency (e ∷ es)) p)

  -- A `BackfillPageSource`, which may answer differently each time: request, `last_id`, `page_size`.
  module _ (source : ℕ → ℕ → ℕ → Result (List EmailRecord)) where
    -- `while remaining > 0`, on fuel; with the error of a page that could not be fetched.
    unfoldable pub run_pages : ℕ → ℕ → ℕ → ℕ → ℕ → Progress → Option (Progress × Option String)
    run_pages fuel selected request last zero p = some (p, none)
    run_pages zero selected request last (suc r) p = none
    run_pages (suc fuel) selected request last (suc r) p =
        turn_page (run_pages fuel selected (suc request)) selected (suc r) p
          (source request last (min page_limit (suc r)))

    abbrev pub fresh_progress : ℕ → Progress
    fresh_progress selected = record {
      summary = record {
        selected = selected;
        processed = 0;
        succeeded = 0;
        failed = 0;
        skipped = 0;
      };
      results = [];
    }

    unfoldable pub run_backfill : ℕ → Bool → Option (Progress × Option String)
    run_backfill selected dry_run =
        if selected == 0
        then some (fresh_progress 0, none)
        else if dry_run
        then some (fresh_progress selected, none)
        else run_pages selected selected 0 0 selected (fresh_progress selected)
