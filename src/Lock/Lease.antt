-- ===== src/Lock/Lease.antt =====
-- A lease against the commands of the other replicas.
use cage.Common.{
  ℕ, suc, ◌+◌, ◌*◌, ◌^◌, ◌<◌, String, List, [], ◌∷◌, ◌≡◌, refl, inl, inr, none, some, Option-cases,
  Bool, true, false, arith, str_eq, str_eq_iff, All, if◌then◌else◌,
}
use mathlib.Core.Bool.{◌&&◌}
use cage.Common.Dict.{lookup, lookup-insert, lookup-remove, lookup-insert_self}
use cage.Common.Exec.{Error, Result, ok, err}
use cage.Redis
use cage.Redis.{Redis, Entry}
use cage.Lock.{DistributedLock, try_acquire, renew, release, microseconds, milliseconds}

pub data Op : Type 0 where
  acquires renews releases : Op

-- A command of some replica, `wait` milliseconds after the one before it.
pub record Event : Type 0 where
  pub wait : ℕ
  pub op : Op
  pub lock : DistributedLock

abbrev pub elapse : ℕ → Redis → Redis
elapse t r = record r { now = r.now + t }

-- The state after a command, and whether it won a lock.
abbrev won : Result Error Bool → Bool
won (ok b) = b
won (err e) = false

abbrev pub act : Op → DistributedLock → Redis → Bool × Redis
act acquires l r = (won (try_acquire l r).0, (try_acquire l r).1)
act renews l r = (false, (renew l r).1)
act releases l r = (false, (release l r).1)

-- The locks that were won on a key, and the state at the end.
abbrev pub run : String → List Event → Redis → ℕ × Redis
run key [] r = (0, r)
run key (e ∷ es) r =
    let (w, r') = act e.op e.lock (elapse e.wait r) in
    let (n, r'') = run key es r' in (if w && str_eq e.lock.key key then suc n else n, r'')

abbrev pub duration : List Event → ℕ
duration [] = 0
duration (e ∷ es) = e.wait + duration es

now-act : (op : Op) (l : DistributedLock) (r : Redis) → (act op l r).1.now ≡ r.now
unfolding try_acquire renew release Redis.set Redis.pexpire Redis.del
now-act acquires l r = ground arith
now-act renews l r = ground arith
now-act releases l r = ground arith

now-run : (key : String) (es : List Event) (r : Redis) → (run key es r).1.now ≡ r.now + duration es
now-run key [] r = omega arith
now-run key (e ∷ es) r = omega (
  arith,
  now-run key es (act e.op e.lock (elapse e.wait r)).1,
  now-act e.op e.lock (elapse e.wait r),
)

still_live :
    (key : String) (e : Entry) (r : Redis)
    → lookup key r.keys ≡ some e
    → r.now < e.expires
    → Redis.get key r ≡ some e.value
unfolding Redis.get
still_live key e r here before = ground arith

module _ (key : String) (entry : Entry) where
  -- The lock on the key is held under the entry's token until the entry expires.
  abbrev pub Held : Redis → Type 0
  Held r = (lookup key r.keys ≡ some entry) × (r.now < entry.expires)

  abbrev pub Other : Event → Type 0
  Other e = str_eq e.lock.token entry.value ≡ false

  acquire-Held :
      (l : DistributedLock) (r : Redis)
      → Held r
      → Held (try_acquire l r).1 × ((won (try_acquire l r).0 && str_eq l.key key) ≡ false)
  unfolding try_acquire Redis.set Redis.get
  acquire-Held l r h = ground (
    arith,
    str_eq_iff l.key key,
    lookup-insert l.key key (record { value = l.token; expires = r.now + milliseconds l.ttl })
        r.keys,
  )

  renew-Held :
      (l : DistributedLock) (r : Redis)
      → str_eq l.token entry.value ≡ false
      → Held r
      → Held (renew l r).1
  unfolding renew Redis.pexpire Redis.get
  renew-Held l r other h = elim (Option-cases (lookup l.key r.keys)) [
    | inl e ↦ ground arith
    | inr (x, e) ↦ ground (
      arith,
      str_eq_iff l.key key,
      str_eq_iff l.token entry.value,
      str_eq_iff x.value l.token,
      lookup-insert l.key key (record x { expires = r.now + microseconds l.ttl }) r.keys,
    )
  ]

  release-Held :
      (l : DistributedLock) (r : Redis)
      → str_eq l.token entry.value ≡ false
      → Held r
      → Held (release l r).1
  unfolding release Redis.del Redis.get
  release-Held l r other h = elim (Option-cases (lookup l.key r.keys)) [
    | inl e ↦ ground arith
    | inr (x, e) ↦ ground (
      arith,
      str_eq_iff l.key key,
      str_eq_iff l.token entry.value,
      str_eq_iff x.value l.token,
      lookup-remove l.key key r.keys,
    )
  ]

  act-Held :
      (e : Event) (op : Op) (r : Redis)
      → Other e
      → Held r
      → Held (act op e.lock r).1 × (((act op e.lock r).0 && str_eq e.lock.key key) ≡ false)
  act-Held e acquires r other h = acquire-Held e.lock r h
  act-Held e renews r other h = (renew-Held e.lock r other h, refl)
  act-Held e releases r other h = (release-Held e.lock r other h, refl)

  -- For as long as its lease lasts, a held lock stays with its token and nobody else wins it,
  -- whatever the replicas with other tokens send, in any order and with any failures of Redis.
  pub lease_excludes :
      (es : List Event) (r : Redis)
      → lookup key r.keys ≡ some entry
      → All Other es
      → r.now + duration es < entry.expires
      → ((run key es r).0 ≡ 0) × (lookup key (run key es r).1.keys ≡ some entry)
  lease_excludes [] r here others in_time = (refl, here)
  lease_excludes (e ∷ es) r here others in_time =
      let (held, lost) = act-Held e e.op (elapse e.wait r) others.0 (here, omega arith) in
      rw lost (
        lease_excludes es (act e.op e.lock (elapse e.wait r)).1 held.0 others.1
          (omega (arith, now-act e.op e.lock (elapse e.wait r))))

acquire_starts :
    (l : DistributedLock) (r : Redis)
    → (try_acquire l r).0 ≡ ok true
    → (Redis.get l.key r ≡ none)
      × (lookup l.key (try_acquire l r).1.keys
          ≡ some (record { value = l.token; expires = r.now + milliseconds l.ttl }))
      × ((try_acquire l r).1.now ≡ r.now)
unfolding try_acquire Redis.set Redis.get
acquire_starts l r h = ground (
  arith,
  lookup-insert_self l.key (record { value = l.token; expires = r.now + milliseconds l.ttl })
      r.keys,
)

-- A replica that wins the lock finds it free. From then until its time to live is over, no replica
-- with another token wins it, whatever they send, in any order and with any failures of Redis, and
-- the lock keeps the winner's token.
pub try_acquire_excludes :
    (l : DistributedLock) (es : List Event) (r : Redis)
    → (try_acquire l r).0 ≡ ok true
    → All (λ e. str_eq e.lock.token l.token ≡ false) es
    → duration es < milliseconds l.ttl
    → (Redis.get l.key r ≡ none)
      × ((run l.key es (try_acquire l r).1).0 ≡ 0)
      × (Redis.get l.key (run l.key es (try_acquire l r).1).1 ≡ some l.token)
try_acquire_excludes l es r wins others in_time =
    let (free, here, now) = acquire_starts l r wins in
    let entry : Entry = record { value = l.token; expires = r.now + milliseconds l.ttl } in
    let (lost, kept) =
      lease_excludes l.key entry es (try_acquire l r).1 here others (omega (arith, now)) in
    (
      free,
      lost,
      still_live l.key entry _ kept (omega (arith, now, now-run l.key es (try_acquire l r).1)),
    )

-- Renew by the owner sets the expiry from ttl.Microseconds(), and PEXPIRE reads milliseconds: a
-- lease of `n` milliseconds is renewed for a thousand times as long.
pub renew_thousandfold :
    (l : DistributedLock) (n : ℕ) (r : Redis)
    → l.ttl ≡ n * 10 ^ 6
    → (renew l r).0 ≡ ok true
    → (milliseconds l.ttl ≡ n)
      × (lookup l.key (renew l r).1.keys
          ≡ some (record { value = l.token; expires = r.now + n * 1000 }))
unfolding renew Redis.pexpire Redis.get
renew_thousandfold l n r ttl owner = elim (Option-cases (lookup l.key r.keys)) [
  | inl e ↦ ground arith
  | inr (x, e) ↦ ground (
    arith,
    str_eq_iff x.value l.token,
    lookup-insert_self l.key (record x { expires = r.now + microseconds l.ttl }) r.keys,
  )
]
