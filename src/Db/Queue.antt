-- ===== src/Db/Queue.antt =====
-- mailmux/src/db/jobs.rs: the job queue's own queries, which find runnable jobs, claim one and abandon
-- one.
use mailmux.Base.{
  Bool, List, Result, String, [], count_where, err, if◌then◌else◌, leb, ltb, nat_eq, none, ok,
  option_eq, select, some, string_eq, suc, take, update_where, ℕ, ◌&&◌, ◌==◌, ◌||◌, ◌∷◌,
}
use mailmux.Db.{Db, ProcessorJob, abandoned, has_id, in_progress}
use mailmux.Db.Jobs.{is_runnable, overflows}

-- COALESCE(next_retry_at, created_at)
abbrev pub retry_key : ProcessorJob → ℕ
retry_key j = elim j.next_retry_at [ none ↦ j.created_at | some t ↦ t ]

-- ORDER BY retry_key ASC, id ASC
abbrev pub runs_before : ProcessorJob → ProcessorJob → Bool
runs_before a b = ltb (retry_key a) (retry_key b) || (retry_key a == retry_key b && leb a.id b.id)

unfoldable pub insert_sorted : ProcessorJob → List ProcessorJob → List ProcessorJob
insert_sorted j [] = j ∷ []
insert_sorted j (k ∷ ks) = if runs_before j k then j ∷ k ∷ ks else k ∷ insert_sorted j ks

unfoldable pub sort_jobs : List ProcessorJob → List ProcessorJob
sort_jobs [] = []
sort_jobs (j ∷ js) = insert_sorted j (sort_jobs js)

unfoldable pub get_runnable_jobs : ℕ → ℕ → Db → List ProcessorJob
get_runnable_jobs now limit db = take limit (sort_jobs (select (is_runnable now) db.jobs))

abbrev pub claimable : ℕ → ℕ → ProcessorJob → Bool
claimable now id j = has_id id j && is_runnable now j

abbrev pub claimed : ℕ → ProcessorJob → ProcessorJob
claimed now j = record j {
  status = in_progress;
  attempts = suc j.attempts;
  last_error = none;
  next_retry_at = none;
  output = none;
  updated_at = now;
}

unfoldable pub claim_job : ℕ → ℕ → Db → Result (Bool × Db)
claim_job now id db =
    if overflows (claimable now id) db
    then err "integer out of range"
    else ok (
      count_where (claimable now id) db.jobs == 1,
      record db { jobs = update_where (claimable now id) (claimed now) db.jobs },
    )

abbrev pub abandoned_for : ℕ → String → ProcessorJob → ProcessorJob
abandoned_for now reason j = record j {
  status = abandoned;
  last_error = some reason;
  next_retry_at = none;
  updated_at = now;
}

unfoldable pub abandon_queued_job : ℕ → ℕ → String → Db → Bool × Db
abandon_queued_job now id reason db = (
  count_where (claimable now id) db.jobs == 1,
  record db { jobs = update_where (claimable now id) (abandoned_for now reason) db.jobs },
)
