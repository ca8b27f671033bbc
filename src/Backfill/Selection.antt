-- ===== src/Backfill/Selection.antt =====
-- A whole backfill over tables that stay as they are (`run_backfill` of mailmux/src/backfill.rs).
use mailmux.Backfill.{
  BackfillEnv, ExecutionSettings, Progress, cap_selected, chunks, last_id, next_page, page_limit,
}
use mailmux.Backfill.Chunks.{joined-chunks}
use mailmux.Backfill.Order.{
  Ascending, drop-Ascending, is_beyond, le-last_id, select-All, select-last_id, select-passed,
  select-select, take-Ascending,
}
use mailmux.Backfill.Pages.{
  after_chunks, fresh_progress, run_backfill, run_chunks, run_pages, turn_page,
}
use mailmux.Backfill.Paging.{
  All-matching, append-nil, append_assoc, length-matching, map-append, matching, matching-Ascending,
  page-matching, result_of, run_chunks-results, take-split,
}
use mailmux.Base.{
  ==_iff, All, Bool, List, Option, Result, String, [], ap, arith, drop, false, if◌then◌else◌,
  length, length-drop, length-take, ltb→lt, map, min, nat_eq, none, ok, option_eq, refl, select,
  some, string_eq, subst, suc, sym, take, true, zero, ℕ, ◌++◌, ◌-◌, ◌==◌, ◌∙◌, ◌∷◌, ◌≡◌, ◌≤◌,
}
use mailmux.Db.{Db, EmailRecord}
use mailmux.Db.Emails.{EmailBackfillFilter, count_emails_for_backfill}
use mailmux.Db.Invariant.{IsValid}

module _ (env : BackfillEnv) (settings : ExecutionSettings) (filter : EmailBackfillFilter)
    (db : Db) where
  -- No query is refused, and no other task changes the tables.
  abbrev pub still : ℕ → ℕ → ℕ → Result (List EmailRecord)
  still = next_page filter (λ request. some db)

  -- The run ends without an error, and `es` have their results after those of `p`.
  abbrev pub Visits : Progress → List EmailRecord → Option (Progress × Option String) → Type 0
  Visits p es ended =
      (q : Progress) × ((ended ≡ some (q, none))
        × (q.results ≡ p.results ++ map (result_of env settings) es))

  still-page :
      (request last size m : ℕ) (e : EmailRecord) (es : List EmailRecord)
      → select (is_beyond last) (matching filter db) ≡ e ∷ es
      → size ≡ suc m
      → still request last size ≡ ok (e ∷ take m es)
  unfolding next_page
  still-page request last size m e es h s = ap ok (
      page-matching filter last size db
      ∙ ap (λ n. take n (select (is_beyond last) (matching filter db))) s
      ∙ ap (take (suc m)) h)

  -- What follows the page is what lies beyond its last id.
  rest-page :
      (last m : ℕ) (e : EmailRecord) (es : List EmailRecord)
      → select (is_beyond last) (matching filter db) ≡ e ∷ es
      → Ascending (e ∷ es)
      → last ≤ e.id
      → select (is_beyond (last_id e (take m es))) (matching filter db) ≡ drop m es
  rest-page last m e es h a l =
      select-select last (last_id e (take m es)) (matching filter db)
        (omega (arith, l, le-last_id e (take m es) (take-Ascending (suc m) (e ∷ es) a)))
      ∙ ap (select (is_beyond (last_id e (take m es)))) h
      ∙ select-last_id m e es a

  first-beyond :
      (last : ℕ) (fs : List EmailRecord) (e : EmailRecord) (es : List EmailRecord)
      → select (is_beyond last) fs ≡ e ∷ es
      → last ≤ e.id
  first-beyond last fs e es h =
      let passed : All (λ f. is_beyond last f ≡ true) (e ∷ es) =
        subst (All (λ f. is_beyond last f ≡ true)) h (select-passed (is_beyond last) fs) in
      omega (arith, ltb→lt last e.id passed.0)

  after_chunks-Visits :
      (continue : Progress → Option (Progress × Option String)) (p : Progress)
      (es rest : List EmailRecord) (after : Progress × Bool)
      → after.1 ≡ false
      → after.0.results ≡ p.results ++ map (result_of env settings) es
      → ((q : Progress) → Visits q rest (continue q))
      → Visits p (es ++ rest) (after_chunks env settings continue after)
  after_chunks-Visits continue p es rest (q, true) s r k = absurd (cc s)
  after_chunks-Visits continue p es rest (q, false) s r k =
      let (final, (ended, results)) = k q in
      (
        final,
        (
          ended,
          results
              ∙ ap (λ rs. rs ++ map (result_of env settings) rest) r
              ∙ append_assoc p.results (map (result_of env settings) es)
                  (map (result_of env settings) rest)
              ∙ ap (◌++◌ p.results) (sym (map-append (result_of env settings) es rest)),
        ),
      )

  run_pages-Visits :
      1 ≤ settings.concurrency
      → settings.fail_fast ≡ false
      → (fuel selected request last remaining : ℕ) (p : Progress) (rest : List EmailRecord)
      → select (is_beyond last) (matching filter db) ≡ rest
      → Ascending rest
      → remaining ≤ length rest
      → remaining ≤ fuel
      → Visits p
          (take remaining rest)
          (run_pages env settings still fuel selected request last remaining p)
  unfolding run_pages
  run_pages-Visits w slow fuel selected request last zero p rest h a l f =
      (p, (refl, sym (append-nil p.results)))
  run_pages-Visits w slow fuel selected request last (suc r) p [] h a l f =
      absurd (omega (arith, l))
  run_pages-Visits w slow zero selected request last (suc r) p (e ∷ es) h a l f =
      absurd (omega (arith, f))
  run_pages-Visits w slow (suc fuel) selected request last (suc r) p (e ∷ es) h a l f =
      subst
        (λ page. Visits p (take (suc r) (e ∷ es)) (
          turn_page env settings (run_pages env settings still fuel selected (suc request)) selected
            (suc r) p page))
        (sym (still-page request last (min page_limit (suc r)) m e es h size))
        (subst
          (λ es'. Visits p es' (
            turn_page env settings (run_pages env settings still fuel selected (suc request))
              selected (suc r) p (ok (e ∷ take m es))))
          (ap (◌∷◌ e) (take-split m r es (omega arith)))
          (after_chunks-Visits
            (run_pages env settings still fuel selected (suc request) (last_id e (take m es))
              (suc r - length (e ∷ take m es)))
            p (e ∷ take m es) (take (r - m) (drop m es))
            (run_chunks env settings selected (chunks settings.concurrency (e ∷ take m es)) p)
            (run_chunks-results env settings slow selected
              (chunks settings.concurrency (e ∷ take m es)) p).0
            ((run_chunks-results env settings slow selected
                (chunks settings.concurrency (e ∷ take m es)) p).1
              ∙ ap (λ fs. p.results ++ map (result_of env settings) fs)
                  (joined-chunks settings.concurrency (e ∷ take m es) w))
            (λ q.
              subst
                (λ n. Visits q (take (r - m) (drop m es)) (
                  run_pages env settings still fuel selected (suc request) (last_id e (take m es)) n
                    q))
                (let z : r - m ≡ suc r - length (e ∷ take m es) =
                    omega (arith, l, length-take m es) in
                  z)
                (run_pages-Visits w slow fuel selected (suc request) (last_id e (take m es)) (r - m)
                  q (drop m es)
                  (rest-page last m e es h a (first-beyond last (matching filter db) e es h))
                  (drop-Ascending m es a.1) (omega (arith, l, length-drop m es))
                  (omega (arith, f))))))
    where
      m : ℕ
      m = min page_limit (suc r) - 1

      size : min page_limit (suc r) ≡ suc m
      size = omega arith

  -- With valid tables that stay as they are, ids from 1 on, no query refused, a concurrency of one
  -- at least and no `--fail-fast`, a backfill that is no dry run ends without an error, and its
  -- results are those of the selected emails, each once, in the order of their ids: the matching
  -- emails, or the first of them that `--limit` allows.
  pub run_backfill-results :
      1 ≤ settings.concurrency
      → settings.fail_fast ≡ false
      → IsValid db
      → All (λ e. 1 ≤ e.id) db.emails
      → (limit : Option ℕ)
      → (q : Progress) × ((run_backfill env settings still
              (cap_selected (count_emails_for_backfill filter db) limit)
              false
            ≡ some (q, none))
          × (q.results
              ≡ map (result_of env settings) (
                  take
                    (cap_selected (count_emails_for_backfill filter db) limit)
                    (matching filter db))))
  unfolding run_backfill cap_selected count_emails_for_backfill
  run_backfill-results w slow v one limit =
      go selected (bound limit) (selected == 0) ((==_iff selected 0).0)
    where
      selected : ℕ
      selected = cap_selected (count_emails_for_backfill filter db) limit

      size : length (matching filter db) ≡ count_emails_for_backfill filter db
      size = length-matching filter db

      bound :
          (o : Option ℕ)
          → cap_selected (count_emails_for_backfill filter db) o ≤ length (matching filter db)
      bound none = omega (arith, size)
      bound (some n) = omega (arith, size)

      from : select (is_beyond 0) (matching filter db) ≡ matching filter db
      from = select-All (is_beyond 0) (matching filter db) (All-matching filter db one)

      go :
          (n : ℕ)
          → n ≤ length (matching filter db)
          → (b : Bool) → (b ≡ true → n ≡ 0)
          → (q : Progress) × (((if b
                  then some (fresh_progress env settings still 0, none)
                  else run_pages env settings still n n 0 0 n (fresh_progress env settings still n))
                ≡ some (q, none))
              × (q.results ≡ map (result_of env settings) (take n (matching filter db))))
      go n l true z = (
        fresh_progress env settings still 0,
        (refl, ap (λ k. map (result_of env settings) (take k (matching filter db))) (sym (z refl))),
      )
      go n l false z =
          run_pages-Visits w slow n n 0 0 n (fresh_progress env settings still n)
            (matching filter db) from (matching-Ascending filter db v) l (omega arith)
