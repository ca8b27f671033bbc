-- ===== src/Backfill/Counting.antt =====
-- The counters of a backfill (`run_backfill` of mailmux/src/backfill.rs): what a result, a chunk and a
-- page add to them.
use mailmux.Backfill.{
  BackfillEnv, EmailExecutionResult, ExecutionSettings, Progress, count_result, count_results,
  email_failed, email_succeeded, is_email_failed, skip,
}
use mailmux.Backfill.Chunks.{joined}
use mailmux.Backfill.Execution.{execute_email_chunk}
use mailmux.Backfill.Pages.{run_chunks}
use mailmux.Base.{
  Bool, List, [], any, ap, arith, false, if◌then◌else◌, length, length-append, nat_eq, option_eq,
  refl, string_eq, suc, true, ℕ, ◌&&◌, ◌++◌, ◌+◌, ◌-◌, ◌∙◌, ◌∷◌, ◌≡◌, ◌≤◌,
}
use mailmux.Db.{EmailRecord}

-- What the counters of the summary have in common at any time.
pub record IsBalanced (p : Progress) : Type 0 where
  pub ends : p.summary.processed ≡ p.summary.succeeded + p.summary.failed
  pub logged : length p.results ≡ p.summary.processed

-- One result more.
counted-IsBalanced :
    (r : EmailExecutionResult) (p : Progress)
    → IsBalanced p
    → IsBalanced (record { summary = count_result r p.summary; results = p.results ++ (r ∷ []) })
counted-IsBalanced (email_succeeded id n) p b = record {
  ends = omega (arith, b.ends);
  logged = omega (arith, b.logged, length-append p.results (email_succeeded id n ∷ []));
}
counted-IsBalanced (email_failed id n e) p b = record {
  ends = omega (arith, b.ends);
  logged = omega (arith, b.logged, length-append p.results (email_failed id n e ∷ []));
}

pub count_results-IsBalanced :
    (rs : List EmailExecutionResult) (p : Progress) → IsBalanced p → IsBalanced (count_results rs p)
unfolding count_results
count_results-IsBalanced [] p b = b
count_results-IsBalanced (r ∷ rs) p b =
    count_results-IsBalanced rs
      (record { summary = count_result r p.summary; results = p.results ++ (r ∷ []) })
      (counted-IsBalanced r p b)

pub count_results-processed :
    (rs : List EmailExecutionResult) (p : Progress)
    → ((count_results rs p).summary.processed ≡ p.summary.processed + length rs)
      × (((count_results rs p).summary.skipped ≡ p.summary.skipped)
          × ((count_results rs p).summary.selected ≡ p.summary.selected))
unfolding count_results
count_results-processed [] p = (omega arith, (refl, refl))
count_results-processed (email_succeeded id n ∷ rs) p =
    let rest = count_results-processed rs (record {
      summary = count_result (email_succeeded id n) p.summary;
      results = p.results ++ (email_succeeded id n ∷ []);
    }) in
    (omega (arith, rest.0), rest.1)
count_results-processed (email_failed id n e ∷ rs) p =
    let rest = count_results-processed rs (record {
      summary = count_result (email_failed id n e) p.summary;
      results = p.results ++ (email_failed id n e ∷ []);
    }) in
    (omega (arith, rest.0), rest.1)

-- What the chunks of a page leave, when they hold `n` emails.
pub record Covers (selected n : ℕ) (p : Progress) (after : Progress × Bool) : Type 0 where
  pub balanced : IsBalanced after.0
  pub kept : after.0.summary.selected ≡ p.summary.selected
  pub within : after.0.summary.processed ≤ p.summary.processed + n
  pub stopped : after.1 ≡ true → after.0.summary.skipped ≡ selected - after.0.summary.processed
  pub passed :
      after.1 ≡ false
      → (after.0.summary.processed ≡ p.summary.processed + n)
        × (after.0.summary.skipped ≡ p.summary.skipped)

length-execute_email_chunk :
    (env : BackfillEnv) (settings : ExecutionSettings) (es : List EmailRecord)
    → length (execute_email_chunk env settings es) ≡ length es
unfolding execute_email_chunk
length-execute_email_chunk env settings [] = refl
length-execute_email_chunk env settings (e ∷ es) =
    ap suc (length-execute_email_chunk env settings es)

pub run_chunks-Covers :
    (env : BackfillEnv) (settings : ExecutionSettings) (selected : ℕ) (cs : List (List EmailRecord))
    (p : Progress)
    → IsBalanced p
    → Covers selected (length (joined cs)) p (run_chunks env settings selected cs p)
unfolding run_chunks
run_chunks-Covers env settings selected [] p b = record {
  balanced = b;
  kept = refl;
  within = omega arith;
  stopped = λ h. absurd (cc h);
  passed = λ h. (omega arith, refl);
}
run_chunks-Covers env settings selected (c ∷ cs) p b =
    go (settings.fail_fast && any is_email_failed results)
      (run_chunks-Covers env settings selected cs counted balanced)
  where
    results : List EmailExecutionResult
    results = execute_email_chunk env settings c

    counted : Progress
    counted = count_results results p

    balanced : IsBalanced counted
    balanced = count_results-IsBalanced results p b

    size : length results ≡ length c
    size = length-execute_email_chunk env settings c

    more : length (c ++ joined cs) ≡ length c + length (joined cs)
    more = length-append c (joined cs)

    go :
        (b : Bool)
        → Covers selected (length (joined cs)) counted (run_chunks env settings selected cs counted)
        → Covers selected (length (c ++ joined cs)) p (
            if b
            then (skip (selected - counted.summary.processed) counted, true)
            else run_chunks env settings selected cs counted)
    go true rest = record {
      balanced = record { ends = balanced.ends; logged = balanced.logged };
      kept = (count_results-processed results p).1.1;
      within = omega (arith, (count_results-processed results p).0, size, more);
      stopped = λ h. refl;
      passed = λ h. absurd (cc h);
    }
    go false rest = record {
      balanced = rest.balanced;
      kept = rest.kept ∙ (count_results-processed results p).1.1;
      within = omega (arith, rest.within, (count_results-processed results p).0, size, more);
      stopped = rest.stopped;
      passed = λ h. (
        omega (arith, (rest.passed h).0, (count_results-processed results p).0, size, more),
        (rest.passed h).1 ∙ (count_results-processed results p).1.0,
      );
    }
