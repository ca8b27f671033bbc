-- ===== src/Backfill/Paging.antt =====
-- The pages of a backfill (`run_backfill` and `DbBackfillPageSource` of mailmux/src/backfill.rs): which
-- emails a run hands to the processor.
use mailmux.Backfill.{
  BackfillEnv, EmailExecutionResult, ExecutionSettings, Progress, count_result, count_results,
  is_email_failed, skip,
}
use mailmux.Backfill.Chunks.{joined}
use mailmux.Backfill.Execution.{execute_email_chunk, execute_email_with_retries}
use mailmux.Backfill.Order.{
  All-sort_emails, Ascending, is_beyond, length-sort_emails, select-and, select-sort_emails,
  sort_emails-Ascending,
}
use mailmux.Backfill.Pages.{run_chunks}
use mailmux.Base.{
  All, All-map, All-select, Bool, Distinct-select, List, [], any, ap, arith, drop, false,
  if◌then◌else◌, length, lt→ltb, map, nat_eq, option_eq, refl, select, string_eq, suc, sym, take,
  true, zero, ℕ, ◌&&◌, ◌++◌, ◌-◌, ◌∙◌, ◌∷◌, ◌≡◌, ◌≤◌,
}
use mailmux.Db.{Db, EmailRecord}
use mailmux.Db.Emails.{
  EmailBackfillFilter, append_backfill_filters, count_emails_for_backfill, get_email_backfill_page,
  sort_emails,
}
use mailmux.Db.Invariant.{IsValid, same_email}

pub matching : EmailBackfillFilter → Db → List EmailRecord
matching filter db = sort_emails (select (append_backfill_filters filter) db.emails)

pub length-matching :
    (filter : EmailBackfillFilter) (db : Db)
    → length (matching filter db) ≡ count_emails_for_backfill filter db
unfolding matching count_emails_for_backfill
length-matching filter db = length-sort_emails (select (append_backfill_filters filter) db.emails)

pub matching-Ascending :
    (filter : EmailBackfillFilter) (db : Db) → IsValid db → Ascending (matching filter db)
unfolding matching
matching-Ascending filter db v =
    sort_emails-Ascending (select (append_backfill_filters filter) db.emails)
      (Distinct-select same_email (append_backfill_filters filter) db.emails v.emails_keyed)

pub All-matching :
    (filter : EmailBackfillFilter) (db : Db)
    → All (λ e. 1 ≤ e.id) db.emails
    → All (λ e. is_beyond 0 e ≡ true) (matching filter db)
unfolding matching
All-matching filter db h =
    All-sort_emails (λ e. is_beyond 0 e ≡ true) (select (append_backfill_filters filter) db.emails)
      (All-map (λ e. 1 ≤ e.id) (λ e. is_beyond 0 e ≡ true)
        (select (append_backfill_filters filter) db.emails)
        (λ e l. lt→ltb 0 e.id (omega (arith, l)))
        (All-select (λ e. 1 ≤ e.id) (append_backfill_filters filter) db.emails h))

-- A page is the beginning of what lies beyond the last id among the emails that match.
pub page-matching :
    (filter : EmailBackfillFilter) (last size : ℕ) (db : Db)
    → get_email_backfill_page filter last size db
      ≡ take size (select (is_beyond last) (matching filter db))
unfolding get_email_backfill_page matching
page-matching filter last size db =
    ap (λ es. take size (sort_emails es))
      (select-and (is_beyond last) (append_backfill_filters filter) db.emails)
    ∙ ap (take size)
        (sym (select-sort_emails last (select (append_backfill_filters filter) db.emails)))

take-nil {ℓ} : {A : Type ℓ} (n : ℕ) → take {A = A} n [] ≡ []
take-nil zero = refl
take-nil (suc n) = refl

pub take-split {ℓ} :
    {A : Type ℓ} (m n : ℕ) (xs : List A) → m ≤ n → take m xs ++ take (n - m) (drop m xs) ≡ take n xs
take-split zero n xs l = ap (λ k. take k xs) (let z : n - 0 ≡ n = omega arith in z)
take-split (suc m) zero xs l = absurd (omega (arith, l))
take-split (suc m) (suc n) [] l = take-nil (suc n - suc m)
take-split (suc m) (suc n) (x ∷ xs) l =
    ap (λ k. x ∷ take m xs ++ take k (drop m xs)) (let z : suc n - suc m ≡ n - m = omega arith in z)
    ∙ ap (◌∷◌ x) (take-split m n xs (omega (arith, l)))

pub map-append {ℓ κ} :
    {A : Type ℓ} {B : Type κ} (f : A → B) (xs ys : List A) → map f (xs ++ ys) ≡ map f xs ++ map f ys
map-append f [] ys = refl
map-append f (x ∷ xs) ys = ap (◌∷◌ (f x)) (map-append f xs ys)

pub append_assoc {ℓ} : {A : Type ℓ} (xs ys zs : List A) → (xs ++ ys) ++ zs ≡ xs ++ (ys ++ zs)
append_assoc [] ys zs = refl
append_assoc (x ∷ xs) ys zs = ap (◌∷◌ x) (append_assoc xs ys zs)

pub append-nil {ℓ} : {A : Type ℓ} (xs : List A) → xs ++ [] ≡ xs
append-nil [] = refl
append-nil (x ∷ xs) = ap (◌∷◌ x) (append-nil xs)

count_results-results :
    (rs : List EmailExecutionResult) (p : Progress) → (count_results rs p).results ≡ p.results ++ rs
unfolding count_results
count_results-results [] p = sym (append-nil p.results)
count_results-results (r ∷ rs) p =
    count_results-results rs
      (record { summary = count_result r p.summary; results = p.results ++ (r ∷ []) })
    ∙ append_assoc p.results (r ∷ []) rs

module _ (env : BackfillEnv) (settings : ExecutionSettings) where
  -- The result of one email.
  abbrev pub result_of : EmailRecord → EmailExecutionResult
  result_of e = (execute_email_with_retries env settings e).0

  -- Without `--fail-fast` all chunks run, and each email has its result, in order.
  pub run_chunks-results :
      settings.fail_fast ≡ false
      → (selected : ℕ) (cs : List (List EmailRecord)) (p : Progress)
      → ((run_chunks env settings selected cs p).1 ≡ false)
        × ((run_chunks env settings selected cs p).0.results
            ≡ p.results ++ map result_of (joined cs))
  unfolding run_chunks execute_email_chunk
  run_chunks-results slow selected [] p = (refl, sym (append-nil p.results))
  run_chunks-results slow selected (c ∷ cs) p =
      go settings.fail_fast slow
        (run_chunks-results slow selected cs (count_results (execute_email_chunk env settings c) p))
    where
      counted : Progress
      counted = count_results (execute_email_chunk env settings c) p

      go :
          (b : Bool)
          → b ≡ false
          → ((run_chunks env settings selected cs counted).1 ≡ false)
            × ((run_chunks env settings selected cs counted).0.results
                ≡ counted.results ++ map result_of (joined cs))
          → (let r : Progress × Bool =
                if b && any is_email_failed (execute_email_chunk env settings c)
                then (skip (selected - counted.summary.processed) counted, true)
                else run_chunks env settings selected cs counted in
              (r.1 ≡ false) × (r.0.results ≡ p.results ++ map result_of (c ++ joined cs)))
      go true q h = absurd (cc q)
      go false q (stop, rest) = (
        stop,
        rest
            ∙ ap (λ rs. rs ++ map result_of (joined cs))
                (count_results-results (execute_email_chunk env settings c) p)
            ∙ append_assoc p.results (map result_of c) (map result_of (joined cs))
            ∙ ap (◌++◌ p.results) (sym (map-append result_of c (joined cs))),
      )
