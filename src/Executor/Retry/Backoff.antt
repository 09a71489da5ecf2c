-- ===== src/Executor/Retry/Backoff.antt =====
-- internal/executor/retry.go: how long the loop waits between two tries.
use native.Mathlib.Nat.{mul-le-mul, pow-le-pow_right}
use flowbench.Base.{
  int64, ℕ, suc, ◌-◌, ◌*◌, ◌%◌, ◌^◌, ◌≤◌, ◌<◌, min, ℤ, pos, ◌≤ℤ◌, ◌<ℤ◌, pos_part, ltb, ◌≡◌, Option,
  none, some, arith, ap, ◌∙◌, if◌then◌else◌,
}
use flowbench.Ir.{RetryPolicy, BackoffStrategy, exponential, honor_retry_after}
use flowbench.Executor.Retry.{
  millisecond, max_backoff, clamp_backoff, base_delay, shifted, delay_by, backoff_delay,
}

pow_bound : (k : ℕ) → k ≤ 16 → 2 ^ k ≤ 65536
pow_bound k h = pow-le-pow_right {n = 2} (omega arith) h

int64_small : (n : ℕ) → n < 9223372036854775808 → int64 n ≡ pos n
unfolding int64
int64_small n h = ground arith

clamp_backoff_range : (d : ℤ) → (pos 0 ≤ℤ clamp_backoff d) × (clamp_backoff d ≤ℤ max_backoff)
unfolding clamp_backoff
clamp_backoff_range d = ground arith

base_delay_pos : (p : RetryPolicy) → pos 0 <ℤ base_delay p
unfolding base_delay
base_delay_pos p = ground arith

pos_part_lem : (d : ℤ) → pos 0 <ℤ d → d ≡ pos (pos_part d)
pos_part_lem d h = ground arith

-- Whatever the strategy, the attempt and the Retry-After value, a wait is not negative, and not
-- longer than two minutes if the policy's own base delay is not.
backoff_delay_range :
    (p : RetryPolicy) (attempt : ℕ) (honored : Option ℤ)
    → base_delay p ≤ℤ max_backoff
    → (pos 0 ≤ℤ backoff_delay p attempt honored) × (backoff_delay p attempt honored ≤ℤ max_backoff)
unfolding backoff_delay
backoff_delay_range p attempt honored h = range p.backoff honored
  where
    range :
        (b : BackoffStrategy) (o : Option ℤ)
        → (pos 0 ≤ℤ delay_by b p attempt o) × (delay_by b p attempt o ≤ℤ max_backoff)
    range honor_retry_after none = omega (arith, base_delay_pos p, h)
    range honor_retry_after (some d) = clamp_backoff_range d
    range exponential o = clamp_backoff_range (shifted (base_delay p) (min (attempt - 1) 16))
    range _ o = omega (arith, base_delay_pos p, h)

shifted_small : (b s : ℕ) → b ≤ 70368744177664 → s ≤ 16 → shifted (pos b) s ≡ pos (b * 2 ^ s)
unfolding shifted
shifted_small b s small few = int64_small (b * 2 ^ s) (bound (mul-le-mul small (pow_bound s few)))
  where
    bound : b * 2 ^ s ≤ 70368744177664 * 65536 → b * 2 ^ s < 9223372036854775808
    bound h = omega arith

clamp_pos :
    (n : ℕ) → clamp_backoff (pos n) ≡ (if ltb (120000 * millisecond) n then max_backoff else pos n)
unfolding clamp_backoff
clamp_pos n = ground arith

-- Exponential backoff from a base delay of at most 2^46 ns (about 19 hours) waits the base delay
-- doubled once for each attempt after the first, sixteen times at most, and two minutes where
-- that is longer: no overflow shows.
pub exponential_exact :
    (p : RetryPolicy) (attempt : ℕ) (honored : Option ℤ) (b : ℕ)
    → p.backoff ≡ exponential
    → base_delay p ≡ pos b
    → b ≤ 70368744177664
    → backoff_delay p attempt honored ≡ (
        if ltb (120000 * millisecond) (b * 2 ^ min (attempt - 1) 16)
        then max_backoff
        else pos (b * 2 ^ min (attempt - 1) 16))
unfolding backoff_delay
exponential_exact p attempt honored b e base small =
    ap (λ s. delay_by s p attempt honored) e
    ∙ ap (λ d. clamp_backoff (shifted d (min (attempt - 1) 16))) base
    ∙ ap clamp_backoff (shifted_small b (min (attempt - 1) 16) small (omega arith))
    ∙ clamp_pos (b * 2 ^ min (attempt - 1) 16)

int64_lost : (m : ℕ) → int64 (suc m * 281474976710656 * 65536) ≡ pos 0
unfolding int64
int64_lost m = ground (arith, whole)
  where
    whole : (suc m * 281474976710656 * 65536) % 18446744073709551616 ≡ 0
    whole = omega arith

-- From a base delay that is a multiple of 2^48 ns (about three days) the seventeenth and later
-- retries of an exponential policy do not wait at all: the shift loses every bit, and the cap lets
-- zero through.
pub exponential_overflow :
    (p : RetryPolicy) (attempt m : ℕ) (honored : Option ℤ)
    → p.backoff ≡ exponential
    → base_delay p ≡ pos (suc m * 281474976710656)
    → 17 ≤ attempt
    → backoff_delay p attempt honored ≡ pos 0
unfolding backoff_delay
exponential_overflow p attempt m honored e base late =
    ap (λ s. delay_by s p attempt honored) e
    ∙ ap (λ d. clamp_backoff (shifted d (min (attempt - 1) 16))) base
    ∙ ap (λ k. clamp_backoff (shifted (pos (suc m * 281474976710656)) k)) (capped attempt late)
    ∙ unfold shifted clamp_backoff in ap clamp_backoff (int64_lost m)
  where
    capped : (a : ℕ) → 17 ≤ a → min (a - 1) 16 ≡ 16
    capped a h = omega arith
