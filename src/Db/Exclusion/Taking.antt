-- ===== src/Db/Exclusion/Taking.antt =====
-- What a successful claim and a successful replay do to the view of the queue.
use mailmux.Base.{
  Bool, Option, Result, ap, arith, err, false, if◌then◌else◌, leb, nat_eq, none, ok, ok-injective,
  option_eq, refl, some, string_eq, sym, true, ℕ, ◌&&◌, ◌==◌, ◌∙◌, ◌≡◌, ◌≢◌,
}
use mailmux.Db.{Db, ProcessorJob, i32_max, in_progress, job_at}
use mailmux.Db.Exclusion.{IsHeld, status_at}
use mailmux.Db.Invariant.{IsValid}
use mailmux.Db.Jobs.{is_in_progress, is_runnable, replayed, reset_and_claim_job_for_replay}
use mailmux.Db.Queue.{claim_job, claimed}
use mailmux.Db.Refinement.{
  claim_entry, claim_job-refines, is_idle, queue-refines, seen, seen_pair, spec_claim,
}
use mailmux.Db.View.{View, assign, compare_and_swap, swap_entry, view}

swap_won :
    (q : ProcessorJob → Bool) (f : ProcessorJob → ProcessorJob) (id : ℕ) (v v' : View)
    → compare_and_swap q f id v ≡ (true, v')
    → (j : ProcessorJob) × (v id ≡ some j) × (q j ≡ true) × (v' ≡ assign v id (f j))
unfolding compare_and_swap
swap_won q f id v v' h = go (v id) refl h
  where
    chosen :
        (j : ProcessorJob) (b : Bool)
        → ◌≡◌ {A = Bool × View} (if b then (true, assign v id (f j)) else (false, v)) (true, v')
        → (b ≡ true) × (v' ≡ assign v id (f j))
    chosen j true e = (refl, sym (ap (λ (p : Bool × View). p.1) e))
    chosen j false e = absurd (cc (ap (λ (p : Bool × View). p.0) e))

    go :
        (o : Option ProcessorJob)
        → v id ≡ o
        → swap_entry q f id v o ≡ (true, v')
        → (j : ProcessorJob) × (v id ≡ some j) × (q j ≡ true) × (v' ≡ assign v id (f j))
    go none e h = absurd (cc (ap (λ (p : Bool × View). p.0) h))
    go (some j) e h = let (t, w) = chosen j (q j) h in (j, e, t, w)

pub swap_lost :
    (q : ProcessorJob → Bool) (f : ProcessorJob → ProcessorJob) (id : ℕ) (v v' : View)
    → compare_and_swap q f id v ≡ (false, v')
    → v' ≡ v
unfolding compare_and_swap
swap_lost q f id v v' h = go (v id) h
  where
    chosen :
        (j : ProcessorJob) (b : Bool)
        → ◌≡◌ {A = Bool × View} (if b then (true, assign v id (f j)) else (false, v)) (false, v')
        → v' ≡ v
    chosen j true e = absurd (cc (ap (λ (p : Bool × View). p.0) e))
    chosen j false e = sym (ap (λ (p : Bool × View). p.1) e)

    go : (o : Option ProcessorJob) → swap_entry q f id v o ≡ (false, v') → v' ≡ v
    go none h = sym (ap (λ (p : Bool × View). p.1) h)
    go (some j) h = chosen j (q j) h

-- A view in which one entry became `in_progress`, and no entry that was in progress changed.
pub record Takes (id : ℕ) (db db' : Db) : Type 0 where
  pub idle : status_at db id ≢ some in_progress
  pub taken : IsHeld db' id
  pub kept : (k : ℕ) → IsHeld db k → IsHeld db' k

assign-Takes :
    (f : ProcessorJob → ProcessorJob) (id : ℕ) (db db' : Db) (j : ProcessorJob)
    → view db id ≡ some j
    → is_in_progress j.status ≡ false
    → (f j).status ≡ in_progress
    → view db' ≡ assign (view db) id (f j)
    → Takes id db db'
unfolding status_at
assign-Takes f id db db' j e idle busy h = record {
  idle = λ held. ground arith;
  taken = ground (arith, entry id);
  kept = λ k held. ground (arith, entry k);
}
  where
    entry : (k : ℕ) → job_at k db' ≡ (if k == id then some (f j) else job_at k db)
    entry k = ap (λ (v : View). v k) h

runnable-idle :
    (now : ℕ) (j : ProcessorJob) → is_runnable now j ≡ true → is_in_progress j.status ≡ false
unfolding is_runnable
runnable-idle now j h = ground arith

swap-Takes :
    (q : ProcessorJob → Bool) (f : ProcessorJob → ProcessorJob) (id : ℕ) (db db' : Db)
    → ((j : ProcessorJob) → q j ≡ true → is_in_progress j.status ≡ false)
    → ((j : ProcessorJob) → (f j).status ≡ in_progress)
    → compare_and_swap q f id (view db) ≡ (true, view db')
    → Takes id db db'
swap-Takes q f id db db' idle busy h =
    let (j, e, passed, w) = swap_won q f id (view db) (view db') h in
    assign-Takes f id db db' j e (idle j passed) (busy j) w

pub claim-Takes :
    (now id : ℕ) (db db' : Db) → IsValid db → claim_job now id db ≡ ok (true, db') → Takes id db db'
unfolding spec_claim
claim-Takes now id db db' v h = go (view db id) (sym (ap seen h) ∙ claim_job-refines now id db v)
  where
    tested :
        (b : Bool)
        → ◌≡◌ {A = Result (Bool × View)} (ok (true, view db')) (
            if b
            then err "integer out of range"
            else ok (compare_and_swap (is_runnable now) (claimed now) id (view db)))
        → Takes id db db'
    tested true e = cc e
    tested false e =
        swap-Takes (is_runnable now) (claimed now) id db db' (runnable-idle now) (λ j. refl)
          (sym (ok-injective e))

    go :
        (o : Option ProcessorJob)
        → ok (true, view db') ≡ claim_entry now id (view db) o
        → Takes id db db'
    go none e = absurd (cc (ap (λ (p : Bool × View). p.0) (ok-injective e)))
    go (some j) e = tested (is_runnable now j && leb i32_max j.attempts) e

pub replay-Takes :
    (now id : ℕ) (db db' : Db)
    → IsValid db
    → reset_and_claim_job_for_replay now id db ≡ (true, db')
    → Takes id db db'
replay-Takes now id db db' v h =
    swap-Takes is_idle (replayed now) id db db' (λ j. ground arith) (λ j. refl)
      (sym (queue-refines now id "" db v).1 ∙ ap seen_pair h)

pub claim_lost-view :
    (now id : ℕ) (db db' : Db)
    → IsValid db
    → claim_job now id db ≡ ok (false, db')
    → view db' ≡ view db
unfolding spec_claim
claim_lost-view now id db db' v h =
    go (view db id) (sym (ap seen h) ∙ claim_job-refines now id db v)
  where
    tested :
        (b : Bool)
        → ◌≡◌ {A = Result (Bool × View)} (ok (false, view db')) (
            if b
            then err "integer out of range"
            else ok (compare_and_swap (is_runnable now) (claimed now) id (view db)))
        → view db' ≡ view db
    tested true e = cc e
    tested false e =
        swap_lost (is_runnable now) (claimed now) id (view db) (view db') (sym (ok-injective e))

    go :
        (o : Option ProcessorJob)
        → ok (false, view db') ≡ claim_entry now id (view db) o
        → view db' ≡ view db
    go none e = ap (λ (p : Bool × View). p.1) (ok-injective e)
    go (some j) e = tested (is_runnable now j && leb i32_max j.attempts) e
