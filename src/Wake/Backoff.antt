-- ===== src/Wake/Backoff.antt =====
-- The delay between two attempts (cappedExponentialBackoff in internal/cli/wake_doorbell.go). A
-- duration is a number of nanoseconds. Every duration that the loop doubles is below the maximum, which
-- is at most fifteen minutes in the program, so the doubling stays within an int64.
use Prim.Native.Nat.{◌*◌, ◌^◌, min}
use native.Mathlib.Nat.{
  mul_assoc, mul_comm, one-le-pow, le-mul_of_pos_right, min-eq_left, min-le_left, pow-suc, pow-zero,
}
use agent_message_queue.Base.{
  ℕ, zero, suc, ◌-◌, ◌≤◌, ◌≡◌, ltb, leb, if◌then◌else◌, arith, Bool-cases, inl, inr, ap, sym, ◌∙◌,
}

double_up : ℕ → ℕ → ℕ → ℕ
double_up zero delay maximum = delay
double_up (suc n) delay maximum =
    let rest = double_up n (delay * 2) maximum in
    if ltb delay maximum then (if leb maximum (delay * 2) then maximum else rest) else delay

unfoldable pub capped_exponential_backoff : ℕ → ℕ → ℕ → ℕ
unfolding double_up
capped_exponential_backoff attempt base maximum =
    if leb maximum base then maximum else double_up (attempt - 1) base maximum

double_up_bounds :
    (n delay maximum : ℕ)
    → delay ≤ maximum
    → (delay ≤ double_up n delay maximum) × (double_up n delay maximum ≤ maximum)
unfolding double_up
double_up_bounds zero delay maximum h = ground arith
double_up_bounds (suc n) delay maximum h = elim (Bool-cases (leb maximum (delay * 2))) [
  | inl e ↦ ground arith
  | inr e ↦ ground (arith, double_up_bounds n (delay * 2) maximum (ground arith))
]

-- The delay is never longer than the maximum, and never shorter than the base where the base is within
-- the maximum.
pub backoff_bounds :
    (attempt base maximum : ℕ)
    → (capped_exponential_backoff attempt base maximum ≤ maximum)
      × (base ≤ maximum → base ≤ capped_exponential_backoff attempt base maximum)
unfolding capped_exponential_backoff
backoff_bounds attempt base maximum = elim (Bool-cases (leb maximum base)) [
  | inl e ↦ ground arith
  | inr e ↦ ground (arith, double_up_bounds (attempt - 1) base maximum (ground arith))
]

raised : (n delay : ℕ) → delay * 2 ^ suc n ≡ delay * 2 * 2 ^ n
raised n delay =
    ap (λ p. delay * p) (pow-suc 2 n ∙ mul_comm (2 ^ n) 2) ∙ sym (mul_assoc delay 2 (2 ^ n))

at_least : (n delay : ℕ) → delay ≤ delay * 2 ^ n
at_least n delay = le-mul_of_pos_right delay (one-le-pow n 2 (omega arith))

double_up-eq-min :
    (n delay maximum : ℕ)
    → delay ≤ maximum
    → double_up n delay maximum ≡ min maximum (delay * 2 ^ n)
unfolding double_up
double_up-eq-min zero delay maximum h = rw pow-zero (omega arith)
double_up-eq-min (suc n) delay maximum h = elim (Bool-cases (leb maximum (delay * 2))) [
  | inl e ↦ ground (
    arith,
    raised n delay,
    at_least n (delay * 2),
    min-le_left maximum (delay * 2 ^ suc n),
    min-eq_left {n = maximum} {m = delay * 2 ^ suc n},
  )
  | inr e ↦ ground (
    arith,
    raised n delay,
    at_least n (delay * 2),
    double_up-eq-min n (delay * 2) maximum (ground arith),
  )
]

-- The loop computes what its name says: the base doubled once for each attempt after the first, and
-- never more than the maximum.
pub backoff-eq-min :
    (attempt base maximum : ℕ)
    → capped_exponential_backoff attempt base maximum ≡ min maximum (base * 2 ^ (attempt - 1))
unfolding capped_exponential_backoff
backoff-eq-min attempt base maximum = elim (Bool-cases (leb maximum base)) [
  | inl e ↦
      ground (
        arith,
        at_least (attempt - 1) base,
        min-eq_left {n = maximum} {m = base * 2 ^ (attempt - 1)},
      )
  | inr e ↦ ground (arith, double_up-eq-min (attempt - 1) base maximum (ground arith))
]
