-- ===== src/Backfill/Attempts.antt =====
-- One email of a backfill (`execute_email_with_retries` and `retry_delay_secs` of
-- mailmux/src/backfill.rs): how many attempts, how it ends, and the waits between the attempts.
use mailmux.Backfill.{
  BackfillEnv, EmailExecutionResult, ExecutionSettings, email_failed, email_succeeded,
  entry_or_last, is_success, max_attempts, retry_delay_secs,
}
use mailmux.Backfill.Execution.{
  attempt_outcome, attempts_from, execute_email_with_retries, last_error,
}
use mailmux.Base.{
  Bool, List, Option, String, [], ap, arith, false, get_elem?, if◌then◌else◌, ltb, ltb→lt, lt→ltb,
  nat_eq, none, option_eq, refl, some, string_eq, subst, suc, sym, true, zero, ℕ, ℕ_discrete, ◌+◌,
  ◌-◌, ◌<◌, ◌∙◌, ◌∷◌, ◌≡◌, ◌≤◌,
}
use mailmux.Db.{EmailRecord}
use mailmux.Processor.Scheduler.{backoff_delay}
use mailmux.Processor.Scheduler.Backoff.{backoff_delay-schedule_entry, schedule_entry}

entry_or_last-schedule_entry :
    (schedule : List ℕ) (n : ℕ)
    → entry_or_last (get_elem? schedule n) schedule ≡ schedule_entry schedule n
unfolding schedule_entry
entry_or_last-schedule_entry [] n = refl
entry_or_last-schedule_entry (d ∷ []) zero = refl
entry_or_last-schedule_entry (d ∷ []) (suc n) = refl
entry_or_last-schedule_entry (d ∷ e ∷ ds) zero = refl
entry_or_last-schedule_entry (d ∷ e ∷ ds) (suc n) =
    same (get_elem? (e ∷ ds) n) ∙ entry_or_last-schedule_entry (e ∷ ds) n
  where
    same : (o : Option ℕ) → entry_or_last o (d ∷ e ∷ ds) ≡ entry_or_last o (e ∷ ds)
    same none = refl
    same (some x) = refl

-- A backfill waits before its next attempt as long as the scheduler does after as many attempts.
pub retry_delay_secs-backoff_delay :
    (settings : ExecutionSettings) (n : ℕ)
    → retry_delay_secs settings n ≡ backoff_delay (suc n) settings.retry_backoff_secs
unfolding retry_delay_secs
retry_delay_secs-backoff_delay settings n =
    entry_or_last-schedule_entry settings.retry_backoff_secs n
    ∙ sym (backoff_delay-schedule_entry settings.retry_backoff_secs n)

module _ (env : BackfillEnv) (settings : ExecutionSettings) (e : EmailRecord) where
  abbrev pub Succeeds : ℕ → Type 0
  Succeeds attempt = is_success (attempt_outcome env settings e attempt) ≡ true

  abbrev pub Fails : ℕ → Type 0
  Fails attempt = is_success (attempt_outcome env settings e attempt) ≡ false

  -- The attempt that succeeds is the first to do so; or no attempt does, and the error is the last's.
  abbrev pub IsVerdict : EmailExecutionResult → Type 0
  IsVerdict (email_succeeded id n) =
      (id ≡ e.id)
      × ((1 ≤ n)
          × ((n ≤ max_attempts settings) × (Succeeds n × ((k : ℕ) → 1 ≤ k → k < n → Fails k))))
  IsVerdict (email_failed id n error) =
      (id ≡ e.id)
      × ((n ≡ max_attempts settings)
          × (((k : ℕ) → 1 ≤ k → k ≤ n → Fails k)
              × (error ≡ last_error env settings (attempt_outcome env settings e n))))

  abbrev pub attempts_of : EmailExecutionResult → ℕ
  attempts_of (email_succeeded id n) = n
  attempts_of (email_failed id n error) = n

  Fails-suc :
      (attempt : ℕ)
      → ((k : ℕ) → 1 ≤ k → k < attempt → Fails k)
      → Fails attempt
      → (k : ℕ) → 1 ≤ k
      → k < suc attempt
      → Fails k
  Fails-suc attempt h f k l u = elim (ℕ_discrete k attempt) [
    | yes p ↦ subst Fails (sym p) f
    | no n ↦ h k l (omega (arith, n))
  ]

  attempts_from-IsVerdict :
      (left attempt : ℕ) (error : String)
      → attempt + left ≡ suc (max_attempts settings)
      → 1 ≤ attempt
      → ((k : ℕ) → 1 ≤ k → k < attempt → Fails k)
      → (left ≡ 0
          → error
            ≡ last_error env settings (attempt_outcome env settings e (max_attempts settings)))
      → IsVerdict (attempts_from env settings e left attempt error).0
  unfolding attempts_from
  attempts_from-IsVerdict zero attempt error s l h m =
      (refl, (refl, (λ k one u. h k one (omega (arith, s)), m refl)))
  attempts_from-IsVerdict (suc left) attempt error s l h m =
      go (is_success (attempt_outcome env settings e attempt)) refl
        (ltb attempt (max_attempts settings))
        (λ f.
          attempts_from-IsVerdict left (suc attempt)
            (last_error env settings (attempt_outcome env settings e attempt)) (omega (arith, s))
            (omega arith) (Fails-suc attempt h f)
            (λ z.
              ap (λ n. last_error env settings (attempt_outcome env settings e n))
                (omega (arith, s, z))))
    where
      rest : EmailExecutionResult × List ℕ
      rest =
          attempts_from env settings e left (suc attempt)
            (last_error env settings (attempt_outcome env settings e attempt))

      go :
          (b : Bool)
          → is_success (attempt_outcome env settings e attempt) ≡ b
          → (c : Bool) → (Fails attempt → IsVerdict rest.0)
          → (let r : EmailExecutionResult × List ℕ =
                if b
                then (email_succeeded e.id attempt, [])
                else if c
                then (rest.0, retry_delay_secs settings (attempt - 1) ∷ rest.1)
                else (rest.0, rest.1) in
              IsVerdict r.0)
      go true q c again = (refl, (l, (omega (arith, s), (q, h))))
      go false q true again = again q
      go false q false again = again q

  -- Every email is tried up to `max_retries + 1` times: it ends with the first attempt that succeeds,
  -- and fails with the error of the last attempt when none does.
  pub execute_email-IsVerdict : IsVerdict (execute_email_with_retries env settings e).0
  unfolding execute_email_with_retries max_attempts
  execute_email-IsVerdict =
      attempts_from-IsVerdict (max_attempts settings) 1 "" (omega arith) (omega arith)
        (λ k l u. absurd (omega (arith, l, u))) (λ z. absurd (omega (arith, z)))

  -- The waits of the schedule, from entry `i` on.
  pub waits : ℕ → ℕ → List ℕ
  waits i zero = []
  waits i (suc n) = schedule_entry settings.retry_backoff_secs i ∷ waits (suc i) n

  abbrev Waited : ℕ → EmailExecutionResult × List ℕ → Type 0
  Waited attempt (result, slept) =
      (attempt ≤ attempts_of result) × (slept ≡ waits (attempt - 1) (attempts_of result - attempt))

  waited_once : (attempt : ℕ) (i : ℕ) → [] ≡ waits i (attempt - attempt)
  unfolding waits
  waited_once attempt i =
      subst (λ n. [] ≡ waits i n) (let z : 0 ≡ attempt - attempt = omega arith in z) refl

  Waited-more :
      (attempt : ℕ) (r : EmailExecutionResult) (slept : List ℕ)
      → 1 ≤ attempt
      → Waited (suc attempt) (r, slept)
      → Waited attempt (r, retry_delay_secs settings (attempt - 1) ∷ slept)
  unfolding waits retry_delay_secs
  Waited-more attempt r slept l (u, w) = (
    omega (arith, u),
    subst (λ n. retry_delay_secs settings i ∷ slept ≡ waits i n)
        (let z : suc (attempts_of r - suc attempt) ≡ attempts_of r - attempt = omega (arith, u) in
          z)
        (ap (λ d. d ∷ slept) (entry_or_last-schedule_entry settings.retry_backoff_secs i)
          ∙ ap (λ s. schedule_entry settings.retry_backoff_secs i ∷ s)
              (w
                ∙ ap (λ k. waits k (attempts_of r - suc attempt))
                    (let z : suc attempt - 1 ≡ suc i = omega (arith, l) in z))),
  )
    where
      i : ℕ
      i = attempt - 1

  attempt_result-Waited :
      (attempt : ℕ) (r : EmailExecutionResult) (slept : List ℕ) (b c : Bool)
      → 1 ≤ attempt
      → (c ≡ true → Waited (suc attempt) (r, slept))
      → (c ≡ false → Waited attempt (r, slept))
      → Waited attempt (
          if b
          then (email_succeeded e.id attempt, [])
          else if c
          then (r, retry_delay_secs settings (attempt - 1) ∷ slept)
          else (r, slept))
  attempt_result-Waited attempt r slept true c l h k =
      (omega arith, waited_once attempt (attempt - 1))
  attempt_result-Waited attempt r slept false true l h k = Waited-more attempt r slept l (h refl)
  attempt_result-Waited attempt r slept false false l h k = k refl

  attempts_from-Waited :
      (left attempt : ℕ) (error : String)
      → attempt + left ≡ max_attempts settings
      → 1 ≤ attempt
      → Waited attempt (attempts_from env settings e (suc left) attempt error)
  unfolding attempts_from
  attempts_from-Waited zero attempt error s l =
      attempt_result-Waited attempt
        (email_failed e.id (max_attempts settings)
          (last_error env settings (attempt_outcome env settings e attempt)))
        [] (is_success (attempt_outcome env settings e attempt))
        (ltb attempt (max_attempts settings)) l
        (λ h. absurd (omega (arith, s, ltb→lt attempt (max_attempts settings) h)))
        (λ h. (
          omega (arith, s),
          subst (λ n. [] ≡ waits (attempt - 1) (n - attempt))
              (let z : attempt ≡ max_attempts settings = omega (arith, s) in z)
              (waited_once attempt (attempt - 1)),
        ))
  attempts_from-Waited (suc left) attempt error s l =
      let rest : EmailExecutionResult × List ℕ =
        attempts_from env settings e (suc left) (suc attempt)
          (last_error env settings (attempt_outcome env settings e attempt)) in
      attempt_result-Waited attempt rest.0 rest.1
        (is_success (attempt_outcome env settings e attempt)) (ltb attempt (max_attempts settings))
        l
        (λ h.
          attempts_from-Waited left (suc attempt)
            (last_error env settings (attempt_outcome env settings e attempt)) (omega (arith, s))
            (omega arith))
        (λ h. absurd (
          let t : ltb attempt (max_attempts settings) ≡ true =
            lt→ltb attempt (max_attempts settings) (omega (arith, s)) in
          cc))

  -- After each failed attempt but the last the backfill waits for the next entry of the schedule, and
  -- after the attempt that ends it no more.
  pub execute_email-waits :
      (execute_email_with_retries env settings e).1
      ≡ waits 0 (attempts_of (execute_email_with_retries env settings e).0 - 1)
  unfolding execute_email_with_retries max_attempts
  execute_email-waits =
      subst
        (λ n.
          (attempts_from env settings e n 1 "").1
          ≡ waits 0 (attempts_of (attempts_from env settings e n 1 "").0 - 1))
        (let z : suc (max_attempts settings - 1) ≡ max_attempts settings = omega arith in z)
        (attempts_from-Waited (max_attempts settings - 1) 1 "" (omega arith) (omega arith)).1
