-- ===== src/Replay/Takeover.antt =====
-- One job of a replay (`replay_event` of mailmux/src/main.rs): what becomes of its row.
use mailmux.Base.{
  Bool, List, Option, Result, ap, false, if◌then◌else◌, nat_eq, none, ok, option_eq, refl, some,
  string_eq, suc, true, ℕ, ◌∙◌, ◌≡◌,
}
use mailmux.Config.{ProcessorConfig}
use mailmux.Db.{Db, EmailRecord, Event, ProcessorJob, completed, failed}
use mailmux.Db.Invariant.{IsValid}
use mailmux.Db.Jobs.{is_runnable, replayed, reset_and_claim_job_for_replay, status_runnable}
use mailmux.Db.Refinement.{is_idle, queue-refines, seen_pair}
use mailmux.Db.View.{View, assign, compare_and_swap-some, view}
use mailmux.Processor.{Outcome, answered, failure, timed_out}
use mailmux.Processor.Effects.{Env, World, run_processor}
use mailmux.Processor.Registry.{Processor}
use mailmux.Processor.Scheduler.Execution.{update_status-view}
use mailmux.Processor.Scheduler.Settling.{Quiet, assign-assign, assign_self, query-Quiet, written}
use mailmux.Replay.{replay_claimed, replay_job, replay_timeout, settle_replay}

-- The row that a replay leaves: `tick` counts the queries, the take-over being the first.
unfoldable pub replay_row : Env → ℕ → Outcome → ProcessorJob → ProcessorJob
replay_row env tick (answered out) j =
    written (if out.success then completed else failed) out.message none (env.to_value out)
      (env.clock (suc (suc tick))) j
replay_row env tick (failure e) j = written failed (some e) none none (env.clock (suc (suc tick))) j
replay_row env tick timed_out j =
    written failed (some "timed out") none none (env.clock (suc (suc tick))) j

replay_row-not_runnable :
    (env : Env) (tick : ℕ) (outcome : Outcome) (j : ProcessorJob) (now : ℕ)
    → is_runnable now (replay_row env tick outcome j) ≡ false
unfolding replay_row is_runnable
replay_row-not_runnable env tick (answered out) j now = go out.success
  where
    go : (b : Bool) → status_runnable now (if b then completed else failed) none ≡ false
    go true = refl
    go false = refl
replay_row-not_runnable env tick (failure e) j now = refl
replay_row-not_runnable env tick timed_out j now = refl

module _ (env : Env) (quiet : Quiet env) (configs : List ProcessorConfig) where
  settle_replay-view :
      (id : ℕ) (outcome : Outcome) (tick : ℕ) (w : World) (j : ProcessorJob)
      → w.tick ≡ suc (suc tick)
      → view w.db id ≡ some j
      → view (settle_replay env configs id outcome w).1.db
        ≡ assign (view w.db) id (replay_row env tick outcome j)
  unfolding replay_row
  settle_replay-view id (answered out) tick w j t e = rw (← t) (
      update_status-view env quiet configs id (if out.success then completed else failed)
        out.message none (env.to_value out) w j e)
  settle_replay-view id (failure m) tick w j t e =
      rw (← t) (update_status-view env quiet configs id failed (some m) none none w j e)
  settle_replay-view id timed_out tick w j t e =
      rw (← t) (update_status-view env quiet configs id failed (some "timed out") none none w j e)

  module _ (p : Processor) (event : Event) (email : Option EmailRecord) (id : ℕ) (w : World)
      (j : ProcessorJob) (valid : IsValid w.db) (found : view w.db id ≡ some j) where
    taken : Bool × Db
    taken = reset_and_claim_job_for_replay (env.clock w.tick) id w.db

    taken-swap : seen_pair taken ≡ (
        if is_idle j
        then (true, assign (view w.db) id (replayed (env.clock w.tick) j))
        else (false, view w.db))
    unfolding taken
    taken-swap =
        (queue-refines (env.clock w.tick) id "" w.db valid).1
        ∙ compare_and_swap-some is_idle (replayed (env.clock w.tick)) id (view w.db) j found

    claimed_view : Bool → View
    claimed_view won =
        view
          (replay_claimed env configs id p event email (ok won)
            (record w { db = taken.1; tick = suc w.tick })).1.db

    replay_job-claimed :
        view (replay_job env configs p event email id w).1.db ≡ claimed_view taken.0
    unfolding replay_job claimed_view taken
    replay_job-claimed =
        ap
          (λ (x : Result Bool × World).
            view (replay_claimed env configs id p event email x.0 x.1).1.db)
          (query-Quiet env quiet (λ now db. ok (reset_and_claim_job_for_replay now id db)) w)

    -- On valid tables, with a database that answers and no other task on it, a replay of a job
    -- that is there takes it over if it is not in progress, writes the outcome of the processor
    -- into its row, with one attempt counted, and changes no other row; it leaves a job in
    -- progress as it is.
    pub replay_job-settles : view (replay_job env configs p event email id w).1.db ≡ (
        if is_idle j
        then assign (view w.db) id (
            replay_row env w.tick
              (env.process (suc w.tick) p event email (replay_timeout configs p.name))
              (replayed (env.clock w.tick) j))
        else view w.db)
    unfolding claimed_view run_processor
    replay_job-settles = replay_job-claimed ∙ go (is_idle j) taken-swap
      where
        started : World
        started = record w { db = taken.1; tick = suc (suc w.tick) }

        row : ProcessorJob
        row = replayed (env.clock w.tick) j

        outcome : Outcome
        outcome = env.process (suc w.tick) p event email (replay_timeout configs p.name)

        go :
            (b : Bool)
            → seen_pair taken
              ≡ (if b then (true, assign (view w.db) id row) else (false, view w.db))
            → claimed_view taken.0
              ≡ (if b then assign (view w.db) id (replay_row env w.tick outcome row) else view w.db)
        go true q =
            ap (λ (x : Bool × View). claimed_view x.0) q
            ∙ settle_replay-view id outcome w.tick started row refl
                (ap (λ (x : Bool × View). x.1 id) q ∙ assign_self (view w.db) id row)
            ∙ ap (λ (x : Bool × View). assign x.1 id (replay_row env w.tick outcome row)) q
            ∙ assign-assign (view w.db) id row (replay_row env w.tick outcome row)
        go false q = ap (λ (x : Bool × View). claimed_view x.0) q ∙ ap (λ (x : Bool × View). x.1) q

    -- Under the same conditions a job that a replay took over is not runnable afterwards at any time,
    -- whatever the outcome.
    pub replay_job-not_runnable :
        is_idle j ≡ true
        → (now : ℕ)
        → (row : ProcessorJob) × ((view (replay_job env configs p event email id w).1.db id
              ≡ some row)
            × (is_runnable now row ≡ false))
    replay_job-not_runnable idle now = (
      replay_row env w.tick outcome row,
      (
        ap (λ (u : View). u id) replay_job-settles ∙ taken_over (is_idle j) idle,
        replay_row-not_runnable env w.tick outcome row now,
      ),
    )
      where
        row : ProcessorJob
        row = replayed (env.clock w.tick) j

        outcome : Outcome
        outcome = env.process (suc w.tick) p event email (replay_timeout configs p.name)

        taken_over :
            (b : Bool)
            → b ≡ true
            → (let u : View =
                  if b
                  then assign (view w.db) id (replay_row env w.tick outcome row)
                  else view w.db in
                u id ≡ some (replay_row env w.tick outcome row))
        taken_over true q = assign_self (view w.db) id (replay_row env w.tick outcome row)
        taken_over false q = absurd (cc q)
