-- ===== src/Db/Runnable.antt =====
-- Which jobs the retry sweep takes (`get_runnable_jobs` of mailmux/src/db/jobs.rs).
use mailmux.Base.{
  All, All-map, All-of-Has, Bool, Has, Has-of-select, Has-select, List, [], ap, arith, count_where,
  drop, false, if◌then◌else◌, inl, inr, length, length-take, min, nat_eq, option_eq, refl, select,
  string_eq, subst, suc, sym, take, take-append-drop, true, ℕ, ◌++◌, ◌∙◌, ◌∷◌, ◌≡◌,
}
use mailmux.Db.{Db, ProcessorJob}
use mailmux.Db.Jobs.{is_runnable}
use mailmux.Db.Queue.{get_runnable_jobs, insert_sorted, runs_before, sort_jobs}

-- Every job runs before the later ones.
abbrev pub Sorted : List ProcessorJob → Type 0
Sorted [] = Unit
Sorted (j ∷ js) = All (λ k. runs_before j k ≡ true) js × Sorted js

runs_before_total : (j k : ProcessorJob) → runs_before j k ≡ false → runs_before k j ≡ true
runs_before_total j k h = ground arith

runs_before_trans :
    (j k m : ProcessorJob)
    → runs_before j k ≡ true
    → runs_before k m ≡ true
    → runs_before j m ≡ true
runs_before_trans j k m h l = ground arith

All-insert_sorted {ℓ} :
    (P : ProcessorJob → Type ℓ) (j : ProcessorJob) (js : List ProcessorJob)
    → P j
    → All P js
    → All P (insert_sorted j js)
unfolding insert_sorted
All-insert_sorted P j [] h t = (h, tt)
All-insert_sorted P j (k ∷ ks) h (g, t) = go (runs_before j k) (All-insert_sorted P j ks h t)
  where
    go :
        (b : Bool)
        → All P (insert_sorted j ks)
        → All P (if b then j ∷ k ∷ ks else k ∷ insert_sorted j ks)
    go true rest = (h, (g, t))
    go false rest = (g, rest)

insert_sorted-Sorted :
    (j : ProcessorJob) (js : List ProcessorJob) → Sorted js → Sorted (insert_sorted j js)
unfolding insert_sorted
insert_sorted-Sorted j [] h = (tt, tt)
insert_sorted-Sorted j (k ∷ ks) (h, t) = go (runs_before j k) refl (insert_sorted-Sorted j ks t)
  where
    go :
        (b : Bool)
        → runs_before j k ≡ b
        → Sorted (insert_sorted j ks)
        → Sorted (if b then j ∷ k ∷ ks else k ∷ insert_sorted j ks)
    go true e rest = (
      (
        e,
        All-map (λ m. runs_before k m ≡ true) (λ m. runs_before j m ≡ true) ks
            (λ m l. runs_before_trans j k m e l) h,
      ),
      (h, t),
    )
    go false e rest =
        (All-insert_sorted (λ m. runs_before k m ≡ true) j ks (runs_before_total j k e) h, rest)

length-insert_sorted :
    (j : ProcessorJob) (js : List ProcessorJob) → length (insert_sorted j js) ≡ suc (length js)
unfolding insert_sorted
length-insert_sorted j [] = refl
length-insert_sorted j (k ∷ ks) = go (runs_before j k) (length-insert_sorted j ks)
  where
    go :
        (b : Bool)
        → length (insert_sorted j ks) ≡ suc (length ks)
        → length (if b then j ∷ k ∷ ks else k ∷ insert_sorted j ks) ≡ suc (suc (length ks))
    go true h = refl
    go false h = ap suc h

Has-insert_sorted :
    (a j : ProcessorJob) (js : List ProcessorJob) → Has a (j ∷ js) → Has a (insert_sorted j js)
unfolding insert_sorted
Has-insert_sorted a j [] m = m
Has-insert_sorted a j (k ∷ ks) m = go (runs_before j k) m (λ h. Has-insert_sorted a j ks h)
  where
    go :
        (b : Bool)
        → Has a (j ∷ k ∷ ks)
        → (Has a (j ∷ ks) → Has a (insert_sorted j ks))
        → Has a (if b then j ∷ k ∷ ks else k ∷ insert_sorted j ks)
    go true n rest = n
    go false (inl e) rest = inr (rest (inl e))
    go false (inr (inl e)) rest = inl e
    go false (inr (inr h)) rest = inr (rest (inr h))

Has-sort_jobs : (a : ProcessorJob) (js : List ProcessorJob) → Has a js → Has a (sort_jobs js)
unfolding sort_jobs
Has-sort_jobs a [] m = m
Has-sort_jobs a (j ∷ js) (inl e) = Has-insert_sorted a j (sort_jobs js) (inl e)
Has-sort_jobs a (j ∷ js) (inr m) = Has-insert_sorted a j (sort_jobs js) (inr (Has-sort_jobs a js m))

sort_jobs-Sorted : (js : List ProcessorJob) → Sorted (sort_jobs js)
unfolding sort_jobs
sort_jobs-Sorted [] = tt
sort_jobs-Sorted (j ∷ js) = insert_sorted-Sorted j (sort_jobs js) (sort_jobs-Sorted js)

All-sort_jobs {ℓ} :
    (P : ProcessorJob → Type ℓ) (js : List ProcessorJob) → All P js → All P (sort_jobs js)
unfolding sort_jobs
All-sort_jobs P [] h = tt
All-sort_jobs P (j ∷ js) (h, t) = All-insert_sorted P j (sort_jobs js) h (All-sort_jobs P js t)

length-sort_jobs : (js : List ProcessorJob) → length (sort_jobs js) ≡ length js
unfolding sort_jobs
length-sort_jobs [] = refl
length-sort_jobs (j ∷ js) = length-insert_sorted j (sort_jobs js) ∙ ap suc (length-sort_jobs js)

length-select {ℓ} :
    {A : Type ℓ} (p : A → Bool) (xs : List A) → length (select p xs) ≡ count_where p xs
length-select p [] = refl
length-select p (x ∷ xs) = ground (arith, length-select p xs)

-- The taken jobs and `rest` are rows of the table and runnable, every runnable row is one of them, and
-- they are as many as the runnable rows.
pub record IsNext (now limit : ℕ) (db : Db) (taken : List ProcessorJob) : Type 0 where
  pub rest : List ProcessorJob
  pub from_table : All (λ j. Has j db.jobs × (is_runnable now j ≡ true)) (taken ++ rest)
  pub all_there :
      (j : ProcessorJob) → Has j db.jobs → is_runnable now j ≡ true → Has j (taken ++ rest)
  pub ordered : Sorted (taken ++ rest)
  pub complete : length (taken ++ rest) ≡ count_where (is_runnable now) db.jobs
  pub bounded : length taken ≡ min limit (count_where (is_runnable now) db.jobs)

-- The retry sweep is given runnable rows of the table, all of them or as many as the limit allows, in
-- the order of the time at which they are due, or were created; every runnable row is among those that
-- are taken or left, and those that are taken run before those that are left.
pub get_runnable_jobs-IsNext :
    (now limit : ℕ) (db : Db) → IsNext now limit db (get_runnable_jobs now limit db)
unfolding get_runnable_jobs
get_runnable_jobs-IsNext now limit db = record {
  rest = drop limit sorted;
  from_table = subst (All Due) (sym whole) (
      All-sort_jobs Due (select (is_runnable now) db.jobs) (
        All-of-Has Due (select (is_runnable now) db.jobs)
          (λ j m. Has-of-select (is_runnable now) j db.jobs m)));
  all_there = λ j m r. subst (Has j) (sym whole) (
      Has-sort_jobs j (select (is_runnable now) db.jobs)
        (Has-select (is_runnable now) j db.jobs m r));
  ordered = subst Sorted (sym whole) (sort_jobs-Sorted (select (is_runnable now) db.jobs));
  complete = ap length whole ∙ size;
  bounded = length-take limit sorted ∙ ap (min limit) size;
}
  where
    Due : ProcessorJob → Type 0
    Due j = Has j db.jobs × (is_runnable now j ≡ true)

    sorted : List ProcessorJob
    sorted = sort_jobs (select (is_runnable now) db.jobs)

    whole : take limit sorted ++ drop limit sorted ≡ sorted
    whole = take-append-drop limit sorted

    size : length sorted ≡ count_where (is_runnable now) db.jobs
    size =
        length-sort_jobs (select (is_runnable now) db.jobs)
        ∙ length-select (is_runnable now) db.jobs
