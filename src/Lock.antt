-- ===== src/Lock.antt =====
-- internal/lock/lock.go: the distributed lock.
pub mod Lease
use cage.Common.{
  ℕ, ◌/◌, ◌^◌, String, Bool, true, false, Option, none, some, str_eq, concat, if◌then◌else◌,
}
use cage.Common.Exec.{Exec, Error, Result, ok, err, or_wrap}
use cage.Redis
use cage.Redis.{Redis, command}

-- A lock of one process; `ttl` is a time.Duration, in nanoseconds.
pub record DistributedLock : Type 0 where
  pub key : String
  pub token : String
  pub ttl : ℕ

abbrev pub new : String → String → ℕ → DistributedLock
new key uuid ttl = record { key = concat "lock:" key; token = uuid; ttl = ttl }

-- ttl.Milliseconds() and ttl.Microseconds().
abbrev pub milliseconds : ℕ → ℕ
milliseconds ttl = ttl / 10 ^ 6

abbrev pub microseconds : ℕ → ℕ
microseconds ttl = ttl / 10 ^ 3

abbrev set_nx : DistributedLock → Option String → Redis → Bool × Redis
set_nx l (some other) r = (false, r)
set_nx l none r = (true, Redis.set l.key l.token (milliseconds l.ttl) r)

unfoldable pub try_acquire : DistributedLock → Exec Error Redis Bool
try_acquire l = or_wrap "lock acquire failed" (command (λ r. set_nx l (Redis.get l.key r) r))

-- redis.call("GET", KEYS[1]) == ARGV[1].
abbrev pub is_owner : DistributedLock → Option String → Bool
is_owner l none = false
is_owner l (some token) = str_eq token l.token

-- renewScript, whose second argument is the TTL that Renew passes.
abbrev renew_script : DistributedLock → ℕ → Redis → Bool × Redis
renew_script l ttl r =
    if is_owner l (Redis.get l.key r) then (true, Redis.pexpire l.key ttl r) else (false, r)

unfoldable pub renew : DistributedLock → Exec Error Redis Bool
renew l = or_wrap "lock renew failed" (command (renew_script l (microseconds l.ttl)))

-- releaseScript; its result is not read.
abbrev release_script : DistributedLock → Redis → Unit {0} × Redis
release_script l r = if is_owner l (Redis.get l.key r) then (tt, Redis.del l.key r) else (tt, r)

unfoldable pub release : DistributedLock → Exec Error Redis (Unit {0})
release l = or_wrap "lock release failed" (command (release_script l))
