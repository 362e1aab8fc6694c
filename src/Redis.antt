-- ===== src/Redis.antt =====
-- The Redis commands that the lock, the cache and their Lua scripts send: keys with an expiry, in
-- milliseconds of the server's clock. `outage n` is the error, if any, of the n-th command, which
-- then changes nothing; a script is one command.
use cage.Common.{ℕ, suc, ◌+◌, String, ◌≡◌, Option, none, some, ltb, arith, str_eq, if◌then◌else◌}
use cage.Common.Dict.{Dict, lookup, insert, remove, lookup-insert, lookup-remove}
use cage.Common.Exec.{Exec, Error, Result, ok, err}

pub record Entry : Type 0 where
  pub value : String
  pub expires : ℕ

pub record Redis : Type 0 where
  pub keys : Dict Entry
  pub now : ℕ
  pub outage : ℕ → Option Error
  pub commands : ℕ

abbrev pub live : ℕ → Option Entry → Option String
live now none = none
live now (some e) = if ltb now e.expires then some e.value else none

-- GET: an expired key is absent.
unfoldable pub get : String → Redis → Option String
get key r = live r.now (lookup key r.keys)

-- SET … PX.
unfoldable pub set : String → String → ℕ → Redis → Redis
set key value ttl r = record r {
  keys = insert key (record { value = value; expires = r.now + ttl }) r.keys;
}

unfoldable pub del : String → Redis → Redis
del key r = record r { keys = remove key r.keys }

abbrev renewed : Option Entry → ℕ → ℕ → Dict Entry → String → Dict Entry
renewed none now ttl keys key = keys
renewed (some e) now ttl keys key = insert key (record e { expires = now + ttl }) keys

-- PEXPIRE of a key that GET has found.
unfoldable pub pexpire : String → ℕ → Redis → Redis
pexpire key ttl r = record r { keys = renewed (lookup key r.keys) r.now ttl r.keys key }

abbrev pub answer : {A : Type 0} → Option Error → A × Redis → Redis → Result Error A × Redis
answer none (a, after) r = (ok a, after)
answer (some e) x r = (err e, r)

abbrev pub command : {A : Type 0} → (Redis → A × Redis) → Exec Error Redis A
command f r =
    let counted = record r { commands = suc r.commands } in
    answer (r.outage r.commands) (f counted) counted

pub get-set :
    (key j value : String) (ttl : ℕ) (r : Redis)
    → get j (set key value ttl r)
      ≡ (if str_eq key j then (if ltb r.now (r.now + ttl) then some value else none) else get j r)
unfolding get set
get-set key j value ttl r = grind (arith, lookup-insert)

pub get-del :
    (key j : String) (r : Redis) → get j (del key r) ≡ (if str_eq key j then none else get j r)
unfolding get del
get-del key j r = grind (arith, lookup-remove)
