-- ===== src/Worker/Backoff.antt =====
-- The pause before a job is tried again, of pkg/connector/inbound_sync.go.
use tumblr_dms.Prelude.{
  ℕ, zero, suc, ◌+◌, ◌-◌, ◌*◌, ◌/◌, ◌^◌, ◌≤◌, ◌<◌, ◌≡◌, ap, inl, inr, min, ltb, if◌then◌else◌,
  arith, Bool-cases,
}
use Prim.Native.Nat.pow
use tumblr_dms.Worker.{
  second, tumblr_job_retry_base, tumblr_job_retry_max, jitter_duration, doubled,
  tumblr_conversation_job_backoff,
}

pow_pos : (n : ℕ) → 1 ≤ 2 ^ n
pow_pos zero = omega arith
pow_pos (suc n) = omega (arith, pow_pos n, pow.suc 2 n)

le-mul : (a P : ℕ) → 1 ≤ P → a ≤ a * P
le-mul a P h = grind arith

mul_twice : (b P : ℕ) → b * 2 * P ≡ b * (P * 2)
mul_twice b P = grind arith

at_cap : (b P : ℕ) → 1 ≤ P → b ≡ tumblr_job_retry_max → b ≡ min (b * P) tumblr_job_retry_max
at_cap b P h k = omega (arith, le-mul b P h)

-- The loop doubles until the maximum.
doubled-min :
    (rounds b : ℕ)
    → b ≤ tumblr_job_retry_max
    → doubled rounds b ≡ min (b * 2 ^ rounds) tumblr_job_retry_max
unfolding doubled
doubled-min zero b h = omega arith
doubled-min (suc n) b h = elim (Bool-cases (ltb b tumblr_job_retry_max)) [
  | inr e ↦ rw (e, pow.suc 2 n) (at_cap b (2 ^ n * 2) (omega (arith, pow_pos n)) (ground arith))
  | inl e ↦ elim (Bool-cases (ltb tumblr_job_retry_max (b * 2))) [
    | inl over ↦
        let past : tumblr_job_retry_max < b * 2 = ground arith in
        rw (e, over, doubled-min n tumblr_job_retry_max (omega arith), pow.suc 2 n)
          (omega (
            arith,
            le-mul tumblr_job_retry_max (2 ^ n) (pow_pos n),
            le-mul (b * 2) (2 ^ n) (pow_pos n),
            mul_twice b (2 ^ n),
          ))
    | inr under ↦
        rw (e, under, doubled-min n (b * 2) (ground arith), pow.suc 2 n)
          (ap (λ m. min m tumblr_job_retry_max) (mul_twice b (2 ^ n)))
  ]
]

jitter_range :
    (rand : ℕ → ℕ) (b : ℕ)
    → ((n : ℕ) → 0 < n → rand n < n)
    → (b - b / 2 ≤ jitter_duration rand b (b / 2)) × (jitter_duration rand b (b / 2) ≤ b + b / 2)
unfolding jitter_duration
jitter_range rand b law = let lt = law (b / 2 * 2 + 1) (omega arith) in ground arith

-- The pause before the `attempt`-th attempt, before the jitter: two seconds, doubled for each attempt after the
-- first, and five minutes at most.
abbrev pub target : ℕ → ℕ
target attempt = min (2 * second * 2 ^ (attempt - 1)) (300 * second)

-- The pause before an attempt is two seconds, doubled for each attempt after the first, but five minutes at
-- most, up to a half of that more or less; so for any random numbers below their bounds.
pub backoff_range :
    (rand : ℕ → ℕ) (attempt : ℕ)
    → ((n : ℕ) → 0 < n → rand n < n)
    → (target attempt - target attempt / 2 ≤ tumblr_conversation_job_backoff rand attempt)
      × (tumblr_conversation_job_backoff rand attempt ≤ target attempt + target attempt / 2)
unfolding tumblr_conversation_job_backoff
backoff_range rand attempt law =
    let rounds : (if ltb attempt 1 then 1 else attempt) - 1 ≡ attempt - 1 = ground arith in
    let closed = doubled-min (attempt - 1) tumblr_job_retry_base (omega arith) in
    rw (rounds, closed) (jitter_range rand (target attempt) law)
