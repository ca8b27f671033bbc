-- ===== src/Backfill/Accounting.antt =====
-- The summary of a backfill (`run_backfill` of mailmux/src/backfill.rs): what it counts.
use mailmux.Backfill.{
  BackfillEnv, ExecutionSettings, Progress, chunks, last_id, next_page, page_limit, skip,
}
use mailmux.Backfill.Chunks.{joined-chunks}
use mailmux.Backfill.Counting.{Covers, IsBalanced, run_chunks-Covers}
use mailmux.Backfill.Pages.{
  after_chunks, fresh_progress, run_backfill, run_chunks, run_pages, turn_page,
}
use mailmux.Base.{
  ==_iff, Bool, List, Option, Result, String, [], arith, err, false, if◌then◌else◌, length, min,
  nat_eq, none, ok, option_eq, refl, some, string_eq, subst, suc, sym, true, zero, ℕ, ◌+◌, ◌-◌,
  ◌==◌, ◌∙◌, ◌∷◌, ◌≡◌, ◌≤◌,
}
use mailmux.Db.{EmailRecord}

-- The run has an end, with balanced counters and every selected email processed or skipped.
abbrev pub IsAccounted : ℕ → Option (Progress × Option String) → Type 0
IsAccounted selected ended =
    (p : Progress) × ((error : Option String) × ((ended ≡ some (p, error))
        × (IsBalanced p
            × ((p.summary.selected ≡ selected)
                × (p.summary.processed + p.summary.skipped ≡ selected)))))

-- A page source as `BackfillPageSource` documents it: at most `page_size` emails.
abbrev pub IsPaged : (ℕ → ℕ → ℕ → Result (List EmailRecord)) → Type 0
IsPaged next_page =
    (request last size : ℕ) (es : List EmailRecord)
    → next_page request last size ≡ ok es
    → length es ≤ size

-- The counters at the start of a round.
record IsOpen (selected remaining : ℕ) (p : Progress) : Type 0 where
  balanced : IsBalanced p
  kept : p.summary.selected ≡ selected
  done : p.summary.processed + remaining ≡ selected
  unskipped : p.summary.skipped ≡ 0

after_chunks-IsAccounted :
    (env : BackfillEnv) (settings : ExecutionSettings) (selected remaining n : ℕ)
    (continue : Progress → Option (Progress × Option String)) (p : Progress)
    (after : Progress × Bool)
    → n ≤ remaining
    → ((q : Progress) → IsOpen selected (remaining - n) q → IsAccounted selected (continue q))
    → IsOpen selected remaining p
    → Covers selected n p after
    → IsAccounted selected (after_chunks env settings continue after)
after_chunks-IsAccounted env settings selected remaining n continue p (q, true) l k o c = (
  q,
  (
    none,
    (refl, (c.balanced, (c.kept ∙ o.kept, omega (arith, c.stopped refl, c.within, o.done, l)))),
  ),
)
after_chunks-IsAccounted env settings selected remaining n continue p (q, false) l k o c =
    k q (record {
      balanced = c.balanced;
      kept = c.kept ∙ o.kept;
      done = omega (arith, (c.passed refl).0, o.done, l);
      unskipped = (c.passed refl).1 ∙ o.unskipped;
    })

run_pages-IsAccounted :
    (env : BackfillEnv) (settings : ExecutionSettings)
    (next_page : ℕ → ℕ → ℕ → Result (List EmailRecord))
    → 1 ≤ settings.concurrency
    → IsPaged next_page
    → (fuel selected request last remaining : ℕ) (p : Progress) → remaining ≤ fuel
    → IsOpen selected remaining p
    → IsAccounted selected (run_pages env settings next_page fuel selected request last remaining p)
unfolding run_pages
run_pages-IsAccounted env settings next_page w h fuel selected request last zero p l o =
    (p, (none, (refl, (o.balanced, (o.kept, omega (arith, o.done, o.unskipped))))))
run_pages-IsAccounted env settings next_page w h zero selected request last (suc r) p l o =
    absurd (omega (arith, l))
run_pages-IsAccounted env settings next_page w h (suc fuel) selected request last (suc r) p l o =
    go (next_page request last (min page_limit (suc r))) (h request last (min page_limit (suc r)))
      (λ last' n q.
        run_pages-IsAccounted env settings next_page w h fuel selected (suc request) last' n q)
  where
    go :
        (page : Result (List EmailRecord))
        → ((es : List EmailRecord) → page ≡ ok es → length es ≤ min page_limit (suc r))
        → ((last' n : ℕ) (q : Progress)
            → n ≤ fuel
            → IsOpen selected n q
            → IsAccounted selected
                (run_pages env settings next_page fuel selected (suc request) last' n q))
        → IsAccounted selected (
            turn_page env settings
              (run_pages env settings next_page fuel selected (suc request))
              selected
              (suc r)
              p
              page)
    go (err e) k again = (
      skip (selected - p.summary.processed) p,
      (
        some e,
        (
          refl,
          (
            record { ends = o.balanced.ends; logged = o.balanced.logged },
            (o.kept, omega (arith, o.done)),
          ),
        ),
      ),
    )
    go (ok []) k again = (
      skip (p.summary.skipped + suc r) p,
      (
        none,
        (
          refl,
          (
            record { ends = o.balanced.ends; logged = o.balanced.logged },
            (o.kept, omega (arith, o.done, o.unskipped)),
          ),
        ),
      ),
    )
    go (ok (e ∷ es)) k again =
        after_chunks-IsAccounted env settings selected (suc r) (length (e ∷ es))
          (run_pages env settings next_page fuel selected (suc request) (last_id e es)
            (suc r - length (e ∷ es)))
          p (run_chunks env settings selected (chunks settings.concurrency (e ∷ es)) p)
          (omega (arith, k (e ∷ es) refl))
          (λ q open'. again (last_id e es) (suc r - length (e ∷ es)) q (omega (arith, l)) open') o
          (subst
            (λ n.
              Covers selected (length n) p
                (run_chunks env settings selected (chunks settings.concurrency (e ∷ es)) p))
            (joined-chunks settings.concurrency (e ∷ es) w)
            (run_chunks-Covers env settings selected (chunks settings.concurrency (e ∷ es)) p
              o.balanced))

-- Whatever the processor answers and the page source gives, a source of at most `page_size` emails a
-- page and a concurrency of one at least provided, a backfill that is no dry run ends, and in its
-- summary every selected email is processed or skipped, every processed one has succeeded or failed,
-- and one result is logged for each.
pub run_backfill-IsAccounted :
    (env : BackfillEnv) (settings : ExecutionSettings)
    (next_page : ℕ → ℕ → ℕ → Result (List EmailRecord))
    → 1 ≤ settings.concurrency
    → IsPaged next_page
    → (selected : ℕ) → IsAccounted selected (run_backfill env settings next_page selected false)
unfolding run_backfill
run_backfill-IsAccounted env settings next_page w h selected =
    go (selected == 0) ((==_iff selected 0).0)
  where
    go :
        (b : Bool)
        → (b ≡ true → selected ≡ 0)
        → IsAccounted selected (
            if b
            then some (fresh_progress env settings next_page 0, none)
            else run_pages env settings next_page selected selected 0 0 selected
                (fresh_progress env settings next_page selected))
    go true e = (
      fresh_progress env settings next_page 0,
      (none, (refl, (record { ends = refl; logged = refl }, (sym (e refl), sym (e refl))))),
    )
    go false e =
        run_pages-IsAccounted env settings next_page w h selected selected 0 0 selected
          (fresh_progress env settings next_page selected) (omega arith)
          (record {
            balanced = record { ends = refl; logged = refl };
            kept = refl;
            done = omega arith;
            unskipped = refl;
          })
