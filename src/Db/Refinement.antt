-- ===== src/Db/Refinement.antt =====
-- The queries on the job queue (mailmux/src/db/jobs.rs) against their specification: atomic updates
-- of one entry of a map from ids to jobs.
use mailmux.Base.{
  ==_iff, Bool, Bool-cases, List, Option, Option-cases, Result, String, [], any, any-key, ap, arith,
  count_where, err, false, find?, if◌then◌else◌, inl, inr, leb, nat_eq, none, not, ok, option_eq,
  refl, some, string_eq, update_where, ℕ, ◌&&◌, ◌==◌, ◌∙◌, ◌∷◌, ◌≡◌,
}
use mailmux.Db.{Db, ProcessorJob, has_id, i32_max, job_at}
use mailmux.Db.Invariant.{IsValid, same_job}
use mailmux.Db.Jobs.{
  is_in_progress, is_runnable, overflows, replayed, reset_and_claim_job_for_replay,
}
use mailmux.Db.Queue.{abandon_queued_job, abandoned_for, claim_job, claimable, claimed}
use mailmux.Db.View.{View, compare_and_swap, compare_and_swap-none, update_swaps, view}

-- What a claim promises: the entry is taken if it is pending or due, and the counter of attempts goes
-- up by one; a counter that is full is an error.
abbrev pub claim_entry : ℕ → ℕ → View → Option ProcessorJob → Result (Bool × View)
claim_entry now id v none = ok (false, v)
claim_entry now id v (some j) =
    if is_runnable now j && leb i32_max j.attempts
    then err "integer out of range"
    else ok (compare_and_swap (is_runnable now) (claimed now) id v)

unfoldable pub spec_claim : ℕ → ℕ → View → Result (Bool × View)
spec_claim now id v = claim_entry now id v (v id)

abbrev pub seen : Result (Bool × Db) → Result (Bool × View)
seen (ok (won, db)) = ok (won, view db)
seen (err e) = err e

overflows-entry :
    (now id : ℕ) (db : Db)
    → IsValid db
    → overflows (claimable now id) db ≡ elim (find? (has_id id) db.jobs) [
      | none ↦ false
      | some j ↦ is_runnable now j && leb i32_max j.attempts
    ]
overflows-entry now id db v =
    any-assoc db.jobs
    ∙ any-key same_job (has_id id) (λ j. is_runnable now j && leb i32_max j.attempts) db.jobs
        (λ a b e. ap (λ i. b.id == i) ((==_iff a.id id).0 e)) v.jobs_keyed
  where
    any-assoc :
        (js : List ProcessorJob)
        → any (λ j. claimable now id j && leb i32_max j.attempts) js
          ≡ any (λ j. has_id id j && (is_runnable now j && leb i32_max j.attempts)) js
    any-assoc [] = refl
    any-assoc (j ∷ js) = ground (arith, any-assoc js)

-- `claim_job` on valid tables is the claim of the specification, errors included: the answer is true
-- exactly when the job is there and is pending or due, and then this entry alone changes.
pub claim_job-refines :
    (now id : ℕ) (db : Db) → IsValid db → seen (claim_job now id db) ≡ spec_claim now id (view db)
unfolding claim_job spec_claim job_at
claim_job-refines now id db v =
    rw (overflows-entry now id db v) (elim (Option-cases (find? (has_id id) db.jobs)) [
      | inl e ↦ rw e (ap ok (swaps ∙ compare_and_swap-none _ _ id (view db) e))
      | inr (j, e) ↦ rw e (elim (Bool-cases (is_runnable now j && leb i32_max j.attempts)) [
        | inl full ↦ rw full
        | inr fits ↦ rw fits (ap ok swaps)
      ])
    ])
  where
    swaps :
        (
          count_where (claimable now id) db.jobs == 1,
          view (record db { jobs = update_where (claimable now id) (claimed now) db.jobs }),
        )
        ≡ compare_and_swap (is_runnable now) (claimed now) id (view db)
    swaps = update_swaps (is_runnable now) (claimed now) (λ j. refl) id db v

-- What a replay may take over: a job that no task executes.
abbrev pub is_idle : ProcessorJob → Bool
is_idle j = not (is_in_progress j.status)

abbrev pub seen_pair : Bool × Db → Bool × View
seen_pair (won, db) = (won, view db)

-- `abandon_queued_job` and `reset_and_claim_job_for_replay` on valid tables are compare-and-swaps of
-- the job's entry: the first guarded by "pending or due", the second by "not in progress".
pub queue-refines :
    (now id : ℕ) (reason : String) (db : Db)
    → IsValid db
    → (seen_pair (abandon_queued_job now id reason db)
        ≡ compare_and_swap (is_runnable now) (abandoned_for now reason) id (view db))
      × (seen_pair (reset_and_claim_job_for_replay now id db)
          ≡ compare_and_swap is_idle (replayed now) id (view db))
unfolding abandon_queued_job reset_and_claim_job_for_replay
queue-refines now id reason db v = (
  update_swaps (is_runnable now) (abandoned_for now reason) (λ j. refl) id db v,
  update_swaps is_idle (replayed now) (λ j. refl) id db v,
)
