-- ===== src/Firecracker/Polling.antt =====
-- The loops of waitForSocket (internal/firecracker/manager.go) and waitReady
-- (internal/firecracker/vsock.go): an attempt, again and again, until a deadline.
use cage.Common.{ℕ, zero, suc, ◌+◌, ◌*◌, ◌/◌, ◌≤◌, ◌<◌, ◌≡◌, refl, ap, ltb, if◌then◌else◌, arith}
use native.Mathlib.Nat.{lt-div-mul-add}
use cage.Common.Exec.{Exec, Error, Result, ok, err}
use cage.Firecracker.Host.{Host}

module _ {H A : Type 0} (os : Host H) (period : ℕ) (timed_out : Error → Error)
    (try : Exec Error H A) where
  -- What a round goes on with, or ends with.
  abbrev after_try :
      Result Error A × H → (Error → Exec Error H (Unit {0})) → Result Error (Unit {0}) × H
  after_try (ok _, s) again = (ok tt, s)
  after_try (err e, s) again = again e (os.sleep period s)

  -- On fuel; `last` is the error of the last attempt.
  unfoldable pub poll : ℕ → ℕ → Error → Exec Error H (Unit {0})
  poll zero deadline last s = (err (timed_out last), s)
  poll (suc fuel) deadline last s =
      let next = after_try (try s) (poll fuel deadline) in
      if ltb (os.now s) deadline then next else (err (timed_out last), s)

  -- Each round that goes on sleeps a period, so there is no round after the last of these.
  abbrev pub poll_for : ℕ → Error → Exec Error H (Unit {0})
  poll_for timeout first s = poll (suc (timeout / period)) (os.now s + timeout) first s

  -- Sleeping takes its time, and an attempt does not turn the clock back.
  pub record IsClock : Type 0 where
    pub slept : (s : H) → os.now s + period ≤ os.now (os.sleep period s)
    pub tried : (s : H) → os.now s ≤ os.now (try s).1

  after_try-same :
      (p : Result Error A × H) (f g : Error → Exec Error H (Unit {0}))
      → ((e : Error) → f e (os.sleep period p.1) ≡ g e (os.sleep period p.1))
      → after_try p f ≡ after_try p g
  after_try-same (ok a, s) f g h = refl
  after_try-same (err e, s) f g h = h e

  poll-enough :
      IsClock
      → (fuel n deadline : ℕ) (last : Error) (s : H) → fuel ≤ n
      → deadline ≤ os.now s + fuel * period
      → poll n deadline last s ≡ poll fuel deadline last s
  unfolding poll
  poll-enough c zero zero deadline last s le h = refl
  poll-enough c zero (suc n) deadline last s le h = ground arith
  poll-enough c (suc fuel) zero deadline last s le h = absurd (omega arith)
  poll-enough c (suc fuel) (suc n) deadline last s le h =
      ap
        (λ (next : Result Error (Unit {0}) × H).
          if ltb (os.now s) deadline then next else (err (timed_out last), s))
        (after_try-same (try s) (poll n deadline) (poll fuel deadline) λ e.
          poll-enough c fuel n deadline e (os.sleep period (try s).1) (omega arith)
            (omega (arith, h, c.slept (try s).1, c.tried s)))

  -- Where sleeping takes its time and an attempt does not turn the clock back, the loop's rounds are
  -- all that the deadline leaves time for: with any more, it does the same.
  pub poll_for-enough :
      IsClock
      → 0 < period
      → (n timeout : ℕ) (first : Error) (s : H) → suc (timeout / period) ≤ n
      → poll n (os.now s + timeout) first s ≡ poll_for timeout first s
  poll_for-enough c pos n timeout first s le =
      poll-enough c (suc (timeout / period)) n (os.now s + timeout) first s le
        (omega (arith, lt-div-mul-add {a = timeout} {b = period} pos))
