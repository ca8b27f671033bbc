-- ===== src/Db/View.antt =====
-- An abstract view of the table of jobs: a map from ids to jobs. Every guarded UPDATE by id of
-- mailmux/src/db/jobs.rs is a compare-and-swap on one entry of the map.
use mathlib.Core.Path.{fun_ext}
use mathlib.Core.Option
use mailmux.Base.{
  ==_iff, ==_ne, Bool, Distinct, List, Option, ap, arith, count_where, count_where-key, false,
  find?, find?-holds, find?-update_where, if◌then◌else◌, nat_eq, none, option_eq, refl, some,
  string_eq, sym, true, update_where, ℕ, ℕ_discrete, ◌&&◌, ◌==◌, ◌∙◌, ◌≡◌,
}
use mailmux.Db.{Db, ProcessorJob, has_id, job_at}
use mailmux.Db.Invariant.{IsValid, same_job}

abbrev pub View : Type 0
View = ℕ → Option ProcessorJob

abbrev pub view : Db → View
view db id = job_at id db

abbrev pub assign : View → ℕ → ProcessorJob → View
assign v id j k = if k == id then some j else v k

-- The entry is replaced if it is there and passes the test, and the answer says whether it was.
abbrev pub swap_entry :
    (ProcessorJob → Bool)
    → (ProcessorJob → ProcessorJob)
    → ℕ
    → View
    → Option ProcessorJob
    → Bool × View
swap_entry q f id v none = (false, v)
swap_entry q f id v (some j) = if q j then (true, assign v id (f j)) else (false, v)

unfoldable pub compare_and_swap :
    (ProcessorJob → Bool) → (ProcessorJob → ProcessorJob) → ℕ → View → Bool × View
compare_and_swap q f id v = swap_entry q f id v (v id)

abbrev pub guarded : ℕ → (ProcessorJob → Bool) → ProcessorJob → Bool
guarded id q j = has_id id j && q j

module _ (q : ProcessorJob → Bool) (f : ProcessorJob → ProcessorJob)
    (keeps : (j : ProcessorJob) → (f j).id ≡ j.id) (id : ℕ) where
  updated : List ProcessorJob → List ProcessorJob
  updated js = update_where (guarded id q) f js

  find?-updated :
      (js : List ProcessorJob) (k : ℕ)
      → find? (has_id k) (updated js)
        ≡ Option.map (λ j. if guarded id q j then f j else j) (find? (has_id k) js)
  unfolding updated
  find?-updated js k =
      find?-update_where (has_id k) (guarded id q) f js (λ j. ap (λ i. i == k) (keeps j))

  count-guarded :
      (js : List ProcessorJob)
      → Distinct same_job js
      → count_where (guarded id q) js
        ≡ elim (find? (has_id id) js) [ none ↦ 0 | some j ↦ if q j then 1 else 0 ]
  count-guarded js h =
      count_where-key same_job (has_id id) q js
        (λ a b e. ap (λ i. b.id == i) ((==_iff a.id id).0 e)) h

  answer :
      (o : Option ProcessorJob) (v : View)
      → ◌==◌ {A = ℕ} (elim o [ none ↦ 0 | some j ↦ if q j then 1 else 0 ]) 1
        ≡ (swap_entry q f id v o).0
  unfolding nat_eq
  answer none v = refl
  answer (some j) v = ground arith

  entry :
      (js : List ProcessorJob) (v : View) (k : ℕ) (o p : Option ProcessorJob)
      → find? (has_id k) js ≡ o
      → find? (has_id id) js ≡ p
      → v k ≡ o
      → Option.map (λ j. if guarded id q j then f j else j) o ≡ (swap_entry q f id v p).1 k
  entry js v k none none e d h = sym h
  entry js v k none (some j) e d h = elim (ℕ_discrete k id) [
    | yes same ↦ ground arith
    | no other ↦ ground (arith, ==_ne k id other)
  ]
  entry js v k (some a) none e d h = elim (ℕ_discrete k id) [
    | yes same ↦ ground arith
    | no other ↦ ground (arith, ==_ne k id other, find?-holds (has_id k) js a e)
  ]
  entry js v k (some a) (some j) e d h = elim (ℕ_discrete k id) [
    | yes same ↦ ground (arith, find?-holds (has_id k) js a e)
    | no other ↦ ground (arith, ==_ne k id other, find?-holds (has_id k) js a e)
  ]

  pub update_swaps :
      (db : Db)
      → IsValid db
      → (
        count_where (guarded id q) db.jobs == 1,
        view (record db { jobs = update_where (guarded id q) f db.jobs }),
      )
        ≡ compare_and_swap q f id (view db)
  unfolding compare_and_swap job_at updated
  update_swaps db v = λ i. (counted i, fun_ext seen i)
    where
      counted :
          (count_where (guarded id q) db.jobs == 1)
          ≡ (swap_entry q f id (view db) (find? (has_id id) db.jobs)).0
      counted =
          rw (count-guarded db.jobs v.jobs_keyed) (answer (find? (has_id id) db.jobs) (view db))

      seen :
          (k : ℕ)
          → find? (has_id k) (update_where (guarded id q) f db.jobs)
            ≡ (swap_entry q f id (view db) (find? (has_id id) db.jobs)).1 k
      seen k =
          find?-updated db.jobs k
          ∙ entry db.jobs (view db) k (find? (has_id k) db.jobs) (find? (has_id id) db.jobs) refl
              refl refl

pub compare_and_swap-none :
    (q : ProcessorJob → Bool) (f : ProcessorJob → ProcessorJob) (id : ℕ) (v : View)
    → v id ≡ none
    → compare_and_swap q f id v ≡ (false, v)
unfolding compare_and_swap
compare_and_swap-none q f id v e = ap (swap_entry q f id v) e

pub compare_and_swap-some :
    (q : ProcessorJob → Bool) (f : ProcessorJob → ProcessorJob) (id : ℕ) (v : View)
    (j : ProcessorJob)
    → v id ≡ some j
    → compare_and_swap q f id v ≡ (if q j then (true, assign v id (f j)) else (false, v))
unfolding compare_and_swap
compare_and_swap-some q f id v j e = ap (swap_entry q f id v) e
