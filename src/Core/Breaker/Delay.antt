-- ===== src/Core/Breaker/Delay.antt =====
-- The recovery delay: how the nominal backoff grows, and the bounds on the jittered one.
use native.Mathlib.Nat.{pow-suc}
use openrung.Base.{ℕ, zero, suc, ◌+◌, ◌-◌, ◌*◌, ◌/◌, ◌%◌, ◌^◌, ◌≤◌, ◌<◌, min, ◌≡◌, arith, dec_le}
use openrung.Core.Breaker.{Config, escalate_once, escalate, jittered, backoff_delay}

escalate_once-min : (cap n : ℕ) → cap % 2 ≡ 0 → n ≤ cap → escalate_once cap n ≡ min cap (2 * n)
unfolding escalate_once
escalate_once-min cap n even h = ground arith

pow_pos : (k : ℕ) → 1 ≤ 2 ^ k
pow_pos zero = omega arith
pow_pos (suc k) = rw (pow-suc) (omega (arith, pow_pos k))

le-mul_pos : (a p : ℕ) → 1 ≤ p → a ≤ a * p
le-mul_pos a p h = grind arith

doubled_min : (cap n p : ℕ) → 1 ≤ p → min cap (min cap (2 * n) * p) ≡ min cap (n * (p * 2))
doubled_min cap n p h = elim (dec_le (2 * n) cap) [
  | yes le ↦ let e : min cap (2 * n) ≡ 2 * n = omega arith in rw e (omega arith)
  | no lt ↦
      let e : min cap (2 * n) ≡ cap = omega arith in
      rw e (omega (arith, le-mul_pos cap p h, le-mul_pos n p h))
]

-- For an even cap and an initial backoff within it, the nominal backoff of the failure after
-- `rounds` others is the initial one doubled that many times, or the cap if that is less.
pub escalate-min :
    (cap rounds n : ℕ) → cap % 2 ≡ 0 → n ≤ cap → escalate cap rounds n ≡ min cap (n * 2 ^ rounds)
unfolding escalate
escalate-min cap zero n even h = omega arith
escalate-min cap (suc k) n even h = rw (escalate_once-min cap n even h) (
    rw (escalate-min cap k (min cap (2 * n)) even (omega arith), pow-suc)
      (doubled_min cap n (2 ^ k) (pow_pos k)))

escalate-le : (cap rounds n : ℕ) → n ≤ cap → escalate cap rounds n ≤ cap
unfolding escalate
escalate-le cap zero n h = h
escalate-le cap (suc k) n h = escalate-le cap k (escalate_once cap n) (ground arith)

jittered_bounds :
    (int63n : ℕ → ℕ) (c : Config) (n : ℕ)
    → 0 < n
    → n ≤ c.max_backoff
    → (n - n / 5 ≤ jittered int63n c n) × (jittered int63n c n ≤ min c.max_backoff (n + n / 5))
unfolding jittered
jittered_bounds r c n pos h = ground arith

-- With an initial backoff above 0, an even cap and the initial backoff within it, the delay
-- after the k-th failure in a row lies within a fifth of the initial backoff doubled k - 1
-- times, or of the cap where that is less, and never above the cap: whatever the random choice.
pub backoff_delay_bounds :
    (int63n : ℕ → ℕ) (c : Config) (k : ℕ)
    → 0 < c.initial_backoff
    → c.initial_backoff ≤ c.max_backoff
    → c.max_backoff % 2 ≡ 0
    → let n = min c.max_backoff (c.initial_backoff * 2 ^ (k - 1)) in
      (n - n / 5 ≤ backoff_delay int63n c k)
      × (backoff_delay int63n c k ≤ min c.max_backoff (n + n / 5))
unfolding backoff_delay
backoff_delay_bounds r c k pos h even =
    let e = escalate-min c.max_backoff (k - 1) c.initial_backoff even h in
    rw (← e) (
      jittered_bounds r c (escalate c.max_backoff (k - 1) c.initial_backoff)
        (omega
          (arith, e, pow_pos (k - 1), le-mul_pos c.initial_backoff (2 ^ (k - 1)) (pow_pos (k - 1))))
        (omega (arith, e)))
