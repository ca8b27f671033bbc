-- ===== src/Db/Exclusion/Reachable.antt =====
-- Mutual exclusion over every interleaving of the tasks.
use mathlib.Core.Option
use mailmux.Base.{
  ==_iff, ==_ne, All, All-map, All-select, All-select_passed, Bool, Distinct-select, List, Option,
  String, [], any, ap, arith, false, find?, find?-holds, find?-update_where, if◌then◌else◌, nat_eq,
  none, not, ok, ok-injective, option_eq, refl, some, string_eq, subst, sym, true, ℕ, ◌==◌, ◌∙◌,
  ◌∷◌, ◌≡◌,
}
use mailmux.Db.{Db, Json, ProcessorJob, Status, has_id, in_progress, job_at}
use mailmux.Db.Exclusion.{
  IsExclusive, IsHeld, Reach, Step, System, at_start, claim_lost, claim_won, elsewhere, give_up,
  record_result, replay_lost, replay_won, status_at, status_of, then_step,
}
use mailmux.Db.Exclusion.Holding.{execute-IsHeld}
use mailmux.Db.Exclusion.Taking.{Takes, claim-Takes, claim_lost-view, replay-Takes, swap_lost}
use mailmux.Db.Integrity.{execute-IsValid}
use mailmux.Db.Invariant.{IsValid}
use mailmux.Db.Jobs.{keep, replayed, reset_and_claim_job_for_replay, update_job_status}
use mailmux.Db.Queue.{claim_job}
use mailmux.Db.Refinement.{is_idle, queue-refines, seen_pair}
use mailmux.Db.Steps.{after_query, claims, execute, replays, updates}
use mailmux.Db.View.{View, view}

record_result-IsHeld :
    (now id : ℕ) (status : Status) (error : Option String) (next : Option ℕ) (output : Option Json)
    (db db' : Db) (k : ℕ)
    → update_job_status now id status error next output keep db ≡ ok db'
    → (k == id) ≡ false
    → IsHeld db k
    → IsHeld db' k
unfolding update_job_status status_at job_at
record_result-IsHeld now id status error next output db db' k h other held = rw (← ok-injective h) (
    rw (find?-update_where (has_id k) (has_id id) written db.jobs (λ j. refl))
      (go (find? (has_id k) db.jobs) refl held))
  where
    written : ProcessorJob → ProcessorJob
    written j = record j {
      status = status;
      last_error = error;
      next_retry_at = next;
      output = output;
      updated_at = now;
    }

    go :
        (o : Option ProcessorJob)
        → find? (has_id k) db.jobs ≡ o
        → status_of o ≡ some in_progress
        → status_of (Option.map (λ j. if has_id id j then written j else j) o) ≡ some in_progress
    go none e h = h
    go (some j) e h =
        let same = (==_iff j.id k).0 (find?-holds (has_id k) db.jobs j e) in
        rw (ap (λ i. i == id) same ∙ other) h

claimed-IsValid :
    (now id : ℕ) (won : Bool) (db db' : Db)
    → IsValid db
    → claim_job now id db ≡ ok (won, db')
    → IsValid db'
unfolding execute
claimed-IsValid now id won db db' v h =
    subst (λ r. IsValid (after_query (λ p. p.1) db r)) h (execute-IsValid now (claims id) db v)

replayed-IsValid :
    (now id : ℕ) (won : Bool) (db db' : Db)
    → IsValid db
    → reset_and_claim_job_for_replay now id db ≡ (won, db')
    → IsValid db'
unfolding execute
replayed-IsValid now id won db db' v h =
    subst (λ r. IsValid r.1) h (execute-IsValid now (replays id) db v)

taken-IsExclusive :
    (id : ℕ) (s : System) (db' : Db)
    → IsValid db'
    → Takes id s.db db'
    → IsExclusive s
    → IsExclusive (record { db = db'; running = id ∷ s.running })
taken-IsExclusive id s db' v t x = record {
  valid = v;
  once = (fresh s.running x.held, x.once);
  held = (t.taken, All-map (IsHeld s.db) (IsHeld db') s.running t.kept x.held);
}
  where
    fresh : (ids : List ℕ) → All (IsHeld s.db) ids → any (λ b. b == id) ids ≡ false
    fresh [] h = refl
    fresh (i ∷ ids) (h, rest) = rw (==_ne i id (λ e. t.idle (rw (← e) h))) (fresh ids rest)

view-IsHeld : (db db' : Db) (k : ℕ) → view db' ≡ view db → IsHeld db k → IsHeld db' k
unfolding status_at
view-IsHeld db db' k e h = rw (ap (λ (v : View). v k) e) h

-- One step of one task.
Step-IsExclusive : {s t : System} → Step s t → IsExclusive s → IsExclusive t
unfolding execute
Step-IsExclusive (claim_won now id s db' h) x =
    taken-IsExclusive id s db' (claimed-IsValid now id true s.db db' x.valid h)
      (claim-Takes now id s.db db' x.valid h) x
Step-IsExclusive (claim_lost now id s db' h) x = record {
  valid = claimed-IsValid now id false s.db db' x.valid h;
  once = x.once;
  held =
      All-map (IsHeld s.db) (IsHeld db') s.running
        (λ k. view-IsHeld s.db db' k (claim_lost-view now id s.db db' x.valid h)) x.held;
}
Step-IsExclusive (replay_won now id s db' h) x =
    taken-IsExclusive id s db' (replayed-IsValid now id true s.db db' x.valid h)
      (replay-Takes now id s.db db' x.valid h) x
Step-IsExclusive (replay_lost now id s db' h) x = record {
  valid = replayed-IsValid now id false s.db db' x.valid h;
  once = x.once;
  held =
      All-map (IsHeld s.db) (IsHeld db') s.running
        (λ k. view-IsHeld s.db db' k (
          swap_lost is_idle (replayed now) id (view s.db) (view db')
            (sym (queue-refines now id "" s.db x.valid).1 ∙ ap seen_pair h)))
        x.held;
}
Step-IsExclusive (record_result now id status error next output s db' member h) x = record {
  valid =
      subst (λ r. IsValid (after_query (λ d. d) s.db r)) h
        (execute-IsValid now (updates id status error next output keep) s.db x.valid);
  once = Distinct-select (λ a b. b == a) _ s.running x.once;
  held =
      All-select_passed (IsHeld s.db) (IsHeld db') (λ i. not (i == id)) s.running
        (λ k passed held.
          record_result-IsHeld now id status error next output s.db db' k h (ground arith) held)
        x.held;
}
Step-IsExclusive (give_up id s) x = record {
  valid = x.valid;
  once = Distinct-select (λ a b. b == a) _ s.running x.once;
  held = All-select (IsHeld s.db) _ s.running x.held;
}
Step-IsExclusive (elsewhere now q s l) x = record {
  valid = execute-IsValid now q s.db x.valid;
  once = x.once;
  held =
      All-map (IsHeld s.db) (IsHeld (execute now q s.db)) s.running
        (λ k. execute-IsHeld now q s.db k l x.valid) x.held;
}

-- Whatever the tasks do, in any order: no job is executed by two tasks at once, and the row of every
-- job whose processor is being executed exists and says `in_progress`, so that it is neither
-- claimed, replayed, abandoned nor cleaned up meanwhile.
pub Reach-IsExclusive : {s t : System} → IsExclusive s → Reach s t → IsExclusive t
Reach-IsExclusive x at_start = x
Reach-IsExclusive x (then_step r st) = Step-IsExclusive st (Reach-IsExclusive x r)
