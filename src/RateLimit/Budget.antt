-- ===== src/RateLimit/Budget.antt =====
-- How many requests of one key the bucket lets through.
use native.Mathlib.Nat.{add-mul}
use cage.Common.{
  ℕ, suc, ◌+◌, ◌-◌, ◌*◌, ◌≤◌, String, List, [], ◌∷◌, ◌≡◌, refl, ap, Option, none, some,
  Option-cases, Bool, true, false, Bool-cases, inl, inr, arith, ltb, leb, concat, if◌then◌else◌,
}
use cage.Common.Dict.{lookup, lookup-insert_self}
use cage.Common.Exec.{Error, Result, ok, err}
use cage.RateLimit.{
  Bucket, Buckets, Limiter, one_token, one_hour, min, live, refilled, allow, script_run,
}

abbrev passed : Result Error (Bool × ℕ) → Bool
passed (ok (allowed, left)) = allowed
passed (err e) = false

abbrev elapse : ℕ → Buckets → Buckets
elapse t r = record r { now = r.now + t }

mul_mono : (a b k : ℕ) → a ≤ b → a * k ≤ b * k
mul_mono a b k h =
    let split : a + (b - a) ≡ b = omega arith in
    omega (arith, add-mul a (b - a) k, ap (λ n. n * k) split)

no_time : (n k : ℕ) → (n - n) * k ≡ 0
no_time n k = let none : n - n ≡ 0 = omega arith in rw none (omega arith)

min_full : (c m : ℕ) → c ≤ m → min c m ≡ c
min_full c m h = ground arith

min_grows : (c x y z : ℕ) → z ≤ x + y → min c z ≤ min c x + y
min_grows c x y z h = ground arith

min_below : (c x : ℕ) → min c x ≤ x
min_below c x = ground arith

module _ (l : Limiter) (key : String) where
  -- The requests of one key, each some nanoseconds after the one before it, on one clock: how many
  -- the limiter allows, and the state at the end.
  abbrev pub requests : List ℕ → Buckets → ℕ × Buckets
  requests [] r = (0, r)
  requests (wait ∷ waits) r =
      let (answer, r') = allow l key (r.now + wait) (elapse wait r) in
      let (n, r'') = requests waits r' in (if passed answer then suc n else n, r'')

  abbrev pub duration : List ℕ → ℕ
  duration [] = 0
  duration (wait ∷ waits) = wait + duration waits

  abbrev bucket : Buckets → Option Bucket
  bucket r = lookup (concat "ratelimit:" key) r.buckets

  -- A bucket was written at its last refill.
  abbrev IsDated : ℕ → Option Bucket → Type 0
  IsDated now none = Unit
  IsDated now (some b) = (b.last_refill ≤ now) × (b.expires ≡ b.last_refill + one_hour)

  -- What the next request would find.
  abbrev budget : Buckets → ℕ
  budget r = refilled l r.now (bucket r)

  -- An expired bucket would have been full.
  expired_full :
      (now : ℕ) (o : Option Bucket)
      → IsDated now o
      → l.capacity ≤ one_hour * l.refill
      → refilled l now (live now o) ≡ refilled l now o
  expired_full now none d slow = refl
  expired_full now (some b) d slow = elim (Bool-cases (ltb now b.expires)) [
    | inl early ↦ rw early refl
    | inr late ↦
        let idle : one_hour ≤ now - b.last_refill = ground arith in
        let more = mul_mono one_hour (now - b.last_refill) l.refill idle in
        rw
          (
            late,
            min_full l.capacity (l.capacity + (now - now) * l.refill) (omega arith),
            min_full l.capacity (b.tokens + (now - b.last_refill) * l.refill) (omega arith),
          )
          refl
  ]

  refilled-elapse :
      (now t : ℕ) (o : Option Bucket)
      → IsDated now o
      → refilled l (now + t) o ≤ refilled l now o + t * l.refill
  refilled-elapse now t none d =
      min_grows l.capacity (l.capacity + (now - now) * l.refill) (t * l.refill) _
        (omega (arith, no_time (now + t) l.refill))
  refilled-elapse now t (some b) d =
      let later : (now + t) - b.last_refill ≡ (now - b.last_refill) + t = omega arith in
      min_grows l.capacity (b.tokens + (now - b.last_refill) * l.refill) (t * l.refill) _
        (omega (arith, ap (λ n. n * l.refill) later, add-mul (now - b.last_refill) t l.refill))

  abbrev price : Bool → ℕ
  price allowed = if allowed then one_token else 0

  spend :
      (tokens : ℕ)
      → (if leb one_token tokens then tokens - one_token else tokens) + price (leb one_token tokens)
        ≤ tokens
  spend tokens = ground arith

  -- An allowed request is paid for out of the budget.
  allow-budget :
      (r : Buckets)
      → IsDated r.now (bucket r)
      → l.capacity ≤ one_hour * l.refill
      → let (answer, r') = allow l key r.now r in
        (budget r' + price (passed answer) ≤ budget r)
        × IsDated r'.now (bucket r')
        × (r'.now ≡ r.now)
  unfolding allow
  allow-budget r d slow = elim (Option-cases (r.outage r.runs)) [
    | inr (e, down) ↦ rw (down, script_run) (omega arith, d, refl)
    | inl up ↦
        let tokens = refilled l r.now (live r.now (bucket r)) in
        let full : tokens ≡ budget r = expired_full r.now (bucket r) d slow in
        let left = if leb one_token tokens then tokens - one_token else tokens in
        let now = no_time r.now l.refill in
        let below = min_below l.capacity (left + (r.now - r.now) * l.refill) in
        rw
          (
            up,
            script_run,
            lookup-insert_self (concat "ratelimit:" key)
                (record { tokens = left; last_refill = r.now; expires = r.now + one_hour })
                r.buckets,
          )
          (omega (arith, spend tokens), (omega arith, refl), refl)
  ]

  count_passed : (b : Bool) (n : ℕ) → (if b then suc n else n) * one_token ≡ n * one_token + price b
  count_passed true n = omega arith
  count_passed false n = omega arith

  requests-budget :
      (waits : List ℕ) (r : Buckets)
      → IsDated r.now (bucket r)
      → l.capacity ≤ one_hour * l.refill
      → (requests waits r).0 * one_token ≤ budget r + duration waits * l.refill
  requests-budget [] r d slow = omega arith
  requests-budget (wait ∷ waits) r d slow =
      let later = elapse wait r in
      let (paid, d', now) = allow-budget later (dated r.now wait (bucket r) d) slow in
      let (answer, r') = allow l key (r.now + wait) later in
      let rest = requests-budget waits r' d' slow in
      omega (
        arith,
        paid,
        rest,
        refilled-elapse r.now wait (bucket r) d,
        add-mul wait (duration waits) l.refill,
        count_passed (passed answer) (requests waits r').0,
      )
    where
      dated : (now t : ℕ) (o : Option Bucket) → IsDated now o → IsDated (now + t) o
      dated now t none d = tt
      dated now t (some b) d = (omega arith, d.1)

  -- If an hour refills the bucket, then of any sequence of requests with one key, on one clock and
  -- starting without a bucket, the limiter allows no more than its capacity and what is refilled in
  -- the time of the sequence: whichever runs of the script fail.
  pub requests_bounded :
      (waits : List ℕ) (r : Buckets)
      → lookup (concat "ratelimit:" key) r.buckets ≡ none
      → l.capacity ≤ one_hour * l.refill
      → (requests waits r).0 * one_token ≤ l.capacity + duration waits * l.refill
  requests_bounded waits r empty slow =
      let start : IsDated r.now (bucket r) = rw empty tt in
      let whole : budget r ≤ l.capacity =
        rw empty (omega (arith, min_least l.capacity (l.capacity + (r.now - r.now) * l.refill))) in
      omega (arith, requests-budget waits r start slow)
    where
      min_least : (c x : ℕ) → min c x ≤ c
      min_least c x = ground arith
