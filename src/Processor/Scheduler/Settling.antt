-- ===== src/Processor/Scheduler/Settling.antt =====
-- What one execution leaves behind when no query is refused and no other task interferes.
use mathlib.Core.Option
use mathlib.Core.Path.{fun_ext}
use mailmux.Base.{
  ==_ne, ==_refl, Bool, Option, Result, String, ap, arith, err, false, find?, find?-holds,
  find?-update_where, if◌then◌else◌, lt→leb_false, nat_eq, none, ok, ok-injective, option_eq, refl,
  some, string_eq, true, update_where, ℕ, ℕ_discrete, ◌+◌, ◌<◌, ◌∙◌, ◌≡◌,
}
use mailmux.Config.{ProcessorConfig}
use mailmux.Db.{Db, Json, ProcessorJob, Status, abandoned, failed, has_id, i32_max, job_at}
use mailmux.Db.Invariant.{IsValid}
use mailmux.Db.Jobs.{is_runnable, keep, update_job_status}
use mailmux.Db.Queue.{claim_job, claimed}
use mailmux.Db.Refinement.{claim_entry, claim_job-refines, seen, spec_claim}
use mailmux.Db.View.{View, assign, compare_and_swap-some, view}
use mailmux.Processor.Effects.{Env, World, query, settle_query}
use mailmux.Processor.Scheduler.{backoff_delay, backoff_of, exhausted, max_retries_of}

pub record Quiet (env : Env) : Type 0 where
  pub up : (n : ℕ) → env.down n ≡ false
  pub alone : (n : ℕ) (db : Db) → env.others n db ≡ db

pub query-Quiet :
    (env : Env)
    → Quiet env
    → {A : Type 0} (f : ℕ → Db → Result (A × Db)) (w : World)
    → query env f w ≡ settle_query w w.db (f (env.clock w.tick) w.db)
unfolding query
query-Quiet env q f w = rw (q.alone w.tick w.db, q.up w.tick)

-- The row that the last query of an execution writes: `at` is the time of that query.
abbrev pub written :
    Status → Option String → Option ℕ → Option Json → ℕ → ProcessorJob → ProcessorJob
written status error next_retry out at j = record j {
  status = status;
  last_error = error;
  next_retry_at = next_retry;
  output = out;
  updated_at = at;
}

-- The verdict on a failed attempt: given up when the attempts are used up, or to be retried after
-- the delay of the schedule.
unfoldable pub failed_row :
    Option ProcessorConfig → String → Option Json → ℕ → ProcessorJob → ProcessorJob
failed_row config message out at j =
    if exhausted (max_retries_of config) j.attempts
    then written abandoned (some message) none out at j
    else written failed (some message) (some (at + backoff_delay j.attempts (backoff_of config)))
        out at j

pub update-view :
    (now id : ℕ) (status : Status) (error : Option String) (next_retry : Option ℕ)
    (out : Option Json) (db : Db) (j : ProcessorJob)
    → view db id ≡ some j
    → (db' : Db) × (update_job_status now id status error next_retry out keep db ≡ ok db')
      × (view db' ≡ assign (view db) id (written status error next_retry out now j))
unfolding update_job_status job_at
update-view now id status error next_retry out db j e = (
  record db { jobs = update_where (has_id id) (written status error next_retry out now) db.jobs },
  refl,
  fun_ext (λ k.
      find?-update_where (has_id k) (has_id id) (written status error next_retry out now) db.jobs
        (λ a. refl)
      ∙ entry k (find? (has_id k) db.jobs) refl),
)
  where
    entry :
        (k : ℕ) (o : Option ProcessorJob)
        → find? (has_id k) db.jobs ≡ o
        → Option.map (λ a. if has_id id a then written status error next_retry out now a else a) o
          ≡ assign (view db) id (written status error next_retry out now j) k
    entry k none h = elim (ℕ_discrete k id) [
      | yes same ↦ ground arith
      | no differ ↦ ground (arith, ==_ne k id differ)
    ]
    entry k (some a) h = elim (ℕ_discrete k id) [
      | yes same ↦ ground (arith, find?-holds (has_id k) db.jobs a h)
      | no differ ↦ ground (arith, ==_ne k id differ, find?-holds (has_id k) db.jobs a h)
    ]

pub assign-assign :
    (v : View) (id : ℕ) (a b : ProcessorJob) → assign (assign v id a) id b ≡ assign v id b
assign-assign v id a b = fun_ext (λ k. ground arith)

pub assign_self : (v : View) (id : ℕ) (a : ProcessorJob) → assign v id a id ≡ some a
assign_self v id a = ground (arith, ==_refl id)

seen-eq-ok :
    (r : Result (Bool × Db)) (b : Bool) (v : View)
    → seen r ≡ ok (b, v)
    → (db : Db) × (r ≡ ok (b, db)) × (view db ≡ v)
seen-eq-ok (ok (c, db)) b v h =
    let p = ok-injective h in
    (db, ap (λ (x : Bool × View). ok (x.0, db)) p, ap (λ (x : Bool × View). x.1) p)
seen-eq-ok (err e) b v h = cc

-- A job that is there and may run, with room in its counter, is claimed.
pub claim_lem :
    (now id : ℕ) (db : Db) (j : ProcessorJob)
    → IsValid db
    → view db id ≡ some j
    → is_runnable now j ≡ true
    → j.attempts < i32_max
    → (db' : Db) × (claim_job now id db ≡ ok (true, db'))
      × (view db' ≡ assign (view db) id (claimed now j))
unfolding spec_claim
claim_lem now id db j v e due room = seen-eq-ok (claim_job now id db) true _ (
    claim_job-refines now id db v
    ∙ ap (claim_entry now id (view db)) e
    ∙ rw (due, lt→leb_false j.attempts i32_max room)
        (ap ok (compare_and_swap-some (is_runnable now) (claimed now) id (view db) j e ∙ rw due)))
