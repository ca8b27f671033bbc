-- ===== src/Processor/Scheduler/Backoff.antt =====
-- The delay before a retry (`handle_failure` of mailmux/src/processor/scheduler.rs).
use mailmux.Base.{
  List, [], ap, arith, get_elem?, length, min, refl, some, suc, zero, ℕ, ◌-◌, ◌∙◌, ◌∷◌, ◌≡◌,
}
use mailmux.Processor.Scheduler.{backoff_delay, delay_or_default}

-- The schedule as its comment describes it: the first failure waits the first entry, each further
-- failure the next one, and the last entry stands for all that follow; with no schedule, 60 seconds.
unfoldable pub schedule_entry : List ℕ → ℕ → ℕ
schedule_entry [] n = 60
schedule_entry (d ∷ []) n = d
schedule_entry (d ∷ e ∷ ds) zero = d
schedule_entry (d ∷ e ∷ ds) (suc n) = schedule_entry (e ∷ ds) n

clamped-entry :
    (d : ℕ) (ds : List ℕ) (n : ℕ)
    → get_elem? (d ∷ ds) (min n (length ds)) ≡ some (schedule_entry (d ∷ ds) n)
unfolding schedule_entry
clamped-entry d [] n = rw (let e : min n 0 ≡ 0 = omega arith in e)
clamped-entry d (e ∷ ds) zero = rw (let e : min 0 (suc (length ds)) ≡ 0 = omega arith in e)
clamped-entry d (e ∷ ds) (suc n) =
    rw (let e : min (suc n) (suc (length ds)) ≡ suc (min n (length ds)) = omega arith in e)
      (clamped-entry e ds n)

-- The delay after the failure of attempt number `suc n` is entry `n` of the schedule.
pub backoff_delay-schedule_entry :
    (schedule : List ℕ) (n : ℕ) → backoff_delay (suc n) schedule ≡ schedule_entry schedule n
unfolding backoff_delay schedule_entry
backoff_delay-schedule_entry [] n = refl
backoff_delay-schedule_entry (d ∷ ds) n =
    let e : min (suc n - 1) (suc (length ds) - 1) ≡ min n (length ds) = omega arith in
    ap (λ (i : ℕ). delay_or_default (get_elem? (d ∷ ds) i)) e
    ∙ ap delay_or_default (clamped-entry d ds n)
