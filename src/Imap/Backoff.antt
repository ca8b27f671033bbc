-- ===== src/Imap/Backoff.antt =====
-- The delay before a mailbox watcher connects again (`retry_delay` of mailmux/src/imap/mod.rs). The
-- nanoseconds of the clock are the argument `nanos`; a u64 keeps its bound.
use native.Mathlib.Nat.{mod-lt, mul-le-mul_left, pow-le-pow_right, pow-suc}
use mailmux.Base.{
  ap, arith, if◌then◌else◌, min, nat_eq, option_eq, string_eq, suc, zero, ℕ, ◌%◌, ◌*◌, ◌+◌, ◌-◌,
  ◌/◌, ◌<◌, ◌==◌, ◌^◌, ◌∙◌, ◌≡◌, ◌≤◌,
}

abbrev pub u64_max : ℕ
u64_max = 2 ^ 64 - 1

-- `u64::saturating_mul`
unfoldable pub saturating_mul : ℕ → ℕ → ℕ
saturating_mul a b = min (a * b) u64_max

unfoldable pub rand_simple : ℕ → ℕ → ℕ
rand_simple nanos top = if top == 0 then 0 else nanos % top

-- The delay without the jitter.
unfoldable pub full_delay : ℕ → ℕ → ℕ → ℕ
full_delay attempts base_ms max_ms = min (saturating_mul base_ms (2 ^ min attempts 10)) max_ms

unfoldable pub retry_delay : ℕ → ℕ → ℕ → ℕ → ℕ
retry_delay nanos attempts base_ms max_ms =
    full_delay attempts base_ms max_ms / 2
    + rand_simple nanos (full_delay attempts base_ms max_ms / 2)

rand_simple-≤ : (nanos top : ℕ) → rand_simple nanos top ≤ top
unfolding rand_simple nat_eq
rand_simple-≤ nanos zero = omega arith
rand_simple-≤ nanos (suc n) = grind (arith, mod-lt nanos {m = suc n})

-- The delay is at least half of the full one and at most the full one, which is at most `max_ms`.
pub retry_delay-within :
    (nanos attempts base_ms max_ms : ℕ)
    → (full_delay attempts base_ms max_ms / 2 ≤ retry_delay nanos attempts base_ms max_ms)
      × ((retry_delay nanos attempts base_ms max_ms ≤ full_delay attempts base_ms max_ms)
          × (full_delay attempts base_ms max_ms ≤ max_ms))
unfolding retry_delay full_delay
retry_delay-within nanos attempts base_ms max_ms =
    let d = full_delay attempts base_ms max_ms in
    let j : rand_simple nanos (d / 2) ≤ d / 2 = rand_simple-≤ nanos (d / 2) in
    (omega arith, (omega arith, omega arith))

-- Up to the tenth failure, and where `base_ms * 1024` fits into a u64, the full delay doubles with
-- each failure until it reaches `max_ms`.
pub full_delay-suc :
    (attempts base_ms max_ms : ℕ)
    → attempts < 10
    → base_ms * 1024 ≤ u64_max
    → full_delay (suc attempts) base_ms max_ms ≡ min (2 * full_delay attempts base_ms max_ms) max_ms
unfolding full_delay saturating_mul
full_delay-suc attempts base_ms max_ms p q =
    let small : base_ms * 2 ^ suc attempts ≤ base_ms * 1024 =
      mul-le-mul_left base_ms (pow-le-pow_right (omega arith) {j = 10} (omega arith)) in
    let next : base_ms * 2 ^ suc attempts ≡ 2 * (base_ms * 2 ^ attempts) =
      ap (λ n. base_ms * n) (pow-suc 2 attempts) ∙ grind arith in
    let now : min attempts 10 ≡ attempts = omega arith in
    let later : min (suc attempts) 10 ≡ suc attempts = omega arith in
    rw later (rw now (omega arith))
