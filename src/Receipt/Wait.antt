-- ===== src/Receipt/Wait.antt =====
-- The wait for a receipt ends.
use mathlib.Core.Path.{subst}
use native.Mathlib.Decide.{dec_lt}
use agent_message_queue.Base.{
  ℕ, zero, suc, ◌+◌, ◌≤◌, ◌<◌, arith, ◌≡◌, ◌≢◌, sym, ap, inl, inr, refl, Bool, true, false, some,
  Bool-cases,
}
use agent_message_queue.Fsq.Store.{Bytes}
use agent_message_queue.Fsq.Errors.{Error, message, is_not_exist}
use agent_message_queue.Fsq.Monad.{Result, ok, err}
use agent_message_queue.Receipt.{Receipt, Json, parse_receipt, wait_from, wait_for}

-- A round that waits on: no file, and no deadline passed.
abbrev pub GoesOn : Result Bytes → Bool → Type 0
GoesOn (ok data') late = ⊥
GoesOn (err e) late = (is_not_exist e ≡ true) × (late ≡ false)

-- A round that ends the wait with the outcome.
pub data Ends (json : Json) (read : Result Bytes) (late : Bool) (x : Result Receipt) : Type 0 where
  arrived : (data' : Bytes) → read ≡ ok data' → x ≡ parse_receipt json data' → Ends json read late x
  failed : (e : Error) → read ≡ err e → is_not_exist e ≡ false → x ≡ err e → Ends json read late x
  expired :
      (e : Error)
      → read ≡ err e
      → is_not_exist e ≡ true
      → late ≡ true
      → x ≡ err (message "deadline exceeded")
      → Ends json read late x

-- The outcome of the wait: the first round that does not go on decides it.
pub record Outcome (json : Json) (reads : ℕ → Result Bytes) (late : ℕ → Bool) (from : ℕ)
    (x : Result Receipt) : Type 0 where
  pub round : ℕ
  pub starts : from ≤ round
  pub waits : (m : ℕ) → from ≤ m → m < round → GoesOn (reads m) (late m)
  pub ends : Ends json (reads round) (late round) x

module _ (json : Json) (reads : ℕ → Result Bytes) (late : ℕ → Bool) where
  now : (n : ℕ) (x : Result Receipt) → Ends json (reads n) (late n) x → Outcome json reads late n x
  now n x e = record {
    round = n;
    starts = omega arith;
    waits = λ m h k. absurd (omega arith);
    ends = e;
  }

  later :
      (n : ℕ) (x : Result Receipt)
      → GoesOn (reads n) (late n)
      → Outcome json reads late (n + 1) x
      → Outcome json reads late n x
  later n x g o = record {
    round = o.round;
    starts = omega (arith, o.starts);
    waits = λ m h k. elim (dec_lt n m) [
      | yes p ↦ o.waits m (omega arith) k
      | no p ↦ let same : n ≡ m = omega arith in subst (λ (i : ℕ). GoesOn (reads i) (late i)) same g
    ];
    ends = o.ends;
  }

  abbrev Answer : ℕ → ℕ → Type 0
  Answer fuel n =
      (x : Result Receipt) × (wait_from json reads late fuel n ≡ some x)
      × Outcome json reads late n x

  goes :
      (n : ℕ) (e : Error)
      → reads n ≡ err e
      → is_not_exist e ≡ true
      → late n ≡ false
      → GoesOn (reads n) (late n)
  goes n e h p l = subst (λ (a : Result Bytes). GoesOn a (late n)) (sym h) (p, l)

  not_late : (n k : ℕ) → late n ≡ false → late k ≡ true → n ≢ k
  not_late n k h d p = cc (h, d, ap late p)

  round_ends :
      (fuel n : ℕ) (a : Result Bytes)
      → reads n ≡ a
      → (late n ≡ false → Answer fuel (n + 1))
      → Answer (suc fuel) n
  unfolding wait_from
  round_ends fuel n (ok data') e rest =
      (parse_receipt json data', ground (arith, e), now n _ (arrived data' e refl))
  round_ends fuel n (err er) e rest = elim (Bool-cases (is_not_exist er)) [
    | inr other ↦ (err er, ground (arith, e, other), now n _ (failed er e other refl))
    | inl absent ↦ elim (Bool-cases (late n)) [
      | inl over ↦ (
        err (message "deadline exceeded"),
        ground (arith, e, absent, over),
        now n _ (expired er e absent over refl),
      )
      | inr early ↦
          let (x, eq, o) = rest early in
          (x, ground (arith, e, absent, early, eq), later n x (goes n er e absent early) o)
    ]
  ]

  ends_from : (fuel n k : ℕ) → k < n + fuel → n ≤ k → late k ≡ true → Answer fuel n
  ends_from zero n k h l d = absurd (omega arith)
  ends_from (suc fuel) n k h l d =
      round_ends fuel n (reads n) refl
        (λ early. ends_from fuel (n + 1) k (omega arith) (omega (arith, not_late n k early d)) d)

-- The wait for a receipt ends: if the clock is past the deadline after some round, as many rounds are
-- enough fuel. The outcome is that of the first round that does not find the file missing before the
-- deadline: the receipt that it reads, its error, or that the deadline has passed.
pub wait_for_ends :
    (json : Json) (reads : ℕ → Result Bytes) (late : ℕ → Bool) (k : ℕ)
    → late k ≡ true
    → (x : Result Receipt) × (wait_for json reads late (suc k) ≡ some x)
      × Outcome json reads late 0 x
unfolding wait_for
wait_for_ends json reads late k d =
    ends_from json reads late (suc k) 0 k (omega arith) (omega arith) d
