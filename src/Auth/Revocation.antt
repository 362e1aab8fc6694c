-- ===== src/Auth/Revocation.antt =====
-- How long the cache goes on admitting a revoked key, and what a refusal keeps from happening.
use cage.Common.{
  ℕ, suc, ◌+◌, ◌<◌, ◌≤◌, String, List, [], ◌∷◌, ◌≡◌, refl, ap, Option, none, some, Option-cases,
  Bool, true, Bool-cases, arith, inl, inr, All, str_eq, str_eq_iff, ltb,
}
use cage.Common.Dict.{lookup, lookup-insert_self}
use cage.Common.Exec.{Error, Result, ok}
use cage.Redis
use cage.Redis.{Redis, Entry}
use cage.Store
use cage.Store.{ApiKey, has_live_key, validate_api_key}
use cage.World.{World}
use cage.Auth.{
  validate_amid, cache_key, verdict, api_key_cache_ttl, from_cache_amid, ask_store_amid,
  cached_value, value_or_empty,
}

cached_some : (v : String) → cached_value (ok v) ≡ some "valid" → v ≡ "valid"
cached_some v e = elim (Bool-cases (str_eq v "")) [
  | inl empty ↦ cc (rw empty at e)
  | inr full ↦ cc (rw full at e)
]

module _ (hash : String) (tables : ℕ → List ApiKey) (delay : ℕ) where
  -- What the cache says of the key was so in the database at a time before now, which is at most the
  -- delay before the cache's time to live began.
  abbrev pub Backed : ℕ → Entry → Type 0
  Backed now e =
      (t : ℕ) × (t ≤ now)
      × (e.expires ≤ t + delay + api_key_cache_ttl)
      × (e.value ≡ verdict (has_live_key hash (tables t)))

  abbrev pub BackedAt : ℕ → Option Entry → Type 0
  BackedAt now none = Unit
  BackedAt now (some e) = Backed now e

  abbrev pub IsBacked : Redis → Type 0
  IsBacked r = BackedAt r.now (lookup (cache_key hash) r.keys)

  -- The key was live at a time before now, less than the cache's time to live and the delay ago.
  abbrev pub Recent : ℕ → Type 0
  Recent now =
      (t : ℕ) × (t ≤ now)
      × (now < t + delay + api_key_cache_ttl)
      × (has_live_key hash (tables t) ≡ true)

  -- Time passes: Redis's clock moves, and the table of keys is what it is then.
  abbrev pub pass : {B : Type 0} → ℕ → World B → World B
  pass n w =
      let now = w.redis.now + n in
      record w { redis = record w.redis { now = now }; db = record w.db { api_keys = tables now } }

  IsBacked-later : (o : Option Entry) (now n : ℕ) → BackedAt now o → BackedAt (now + n) o
  IsBacked-later none now n h = tt
  IsBacked-later (some e) now n (t, before, ends, same) = (t, omega arith, ends, same)

  -- After a validation the cache is backed, and an admitted key is recent.
  abbrev Validated : {B : Type 0} → Result Error Bool × World B → Type 0
  Validated (r, w) = IsBacked w.redis × (r ≡ ok true → Recent w.redis.now)

  ask_store-Validated :
      {B : Type 0} (later : ℕ) (w : World B)
      → later ≤ delay
      → w.db.api_keys ≡ tables w.redis.now
      → IsBacked w.redis
      → Validated (ask_store_amid (pass later) hash w)
  unfolding validate_api_key Redis.set
  ask_store-Validated later w soon now h = elim (Option-cases (w.db.outage w.db.statements)) [
    | inr (e, down) ↦ rw (down, Store.answer) (h, λ f. cc)
    | inl up ↦ elim (Option-cases (w.redis.outage w.redis.commands)) [
      | inr (e, down) ↦
          rw (up, Store.answer, down, Redis.answer)
            (IsBacked-later _ w.redis.now later h, λ f. recent (cc f))
      | inl well ↦
          rw (up, Store.answer, well, Redis.answer)
            (
              rw
                  (lookup-insert_self (cache_key hash)
                    (record {
                      value = verdict (has_live_key hash w.db.api_keys);
                      expires = w.redis.now + later + api_key_cache_ttl;
                    })
                    w.redis.keys)
                  (
                    w.redis.now,
                    omega arith,
                    omega arith,
                    ap (λ ks. verdict (has_live_key hash ks)) now,
                  ),
              λ f. recent (cc f),
            )
    ]
  ]
    where
      recent : has_live_key hash w.db.api_keys ≡ true → Recent (w.redis.now + later)
      recent f = (w.redis.now, omega arith, omega arith, cc (ap (has_live_key hash) now, f))

  valid-Recent :
      (o : Option Entry) (now : ℕ)
      → BackedAt now o
      → value_or_empty (Redis.live now o) ≡ "valid"
      → Recent now
  valid-Recent none now h e = absurd cc
  valid-Recent (some x) now (t, before, ends, same) e = elim (Bool-cases (ltb now x.expires)) [
    | inr late ↦ absurd (cc (ap (λ v. str_eq v "valid") (rw late at e)))
    | inl early ↦ elim (Bool-cases (has_live_key hash (tables t))) [
      | inl live ↦ (t, before, ground arith, live)
      | inr dead ↦ absurd (cc (ap (λ v. str_eq v "valid") (rw (early, same, dead) at e)))
    ]
  ]

  from_cache-Validated :
      {B : Type 0} (first later : ℕ) (o : Option String) (w : World B)
      → later ≤ delay
      → IsBacked w.redis
      → (o ≡ some "valid" → Recent w.redis.now)
      → Validated (from_cache_amid (pass first) (pass later) hash o w)
  from_cache-Validated first later none w soon h q =
      ask_store-Validated later (pass first w) soon refl (IsBacked-later _ w.redis.now first h)
  from_cache-Validated first later (some v) w soon h q =
      (h, λ f. q (ap some ((str_eq_iff v "valid").0 (cc f))))

  abbrev counted : {B : Type 0} → World B → World B
  counted w = record w { redis = record w.redis { commands = suc w.redis.commands } }

  validate-Validated :
      {B : Type 0} (first later : ℕ) (w : World B)
      → later ≤ delay
      → IsBacked w.redis
      → Validated (validate_amid (pass first) (pass later) hash w)
  unfolding validate_amid Redis.get
  validate-Validated first later w soon h = elim (Option-cases (w.redis.outage w.redis.commands)) [
    | inr (e, down) ↦
        rw (down, Redis.answer) (from_cache-Validated first later none (counted w) soon h (λ f. cc))
    | inl up ↦
        rw (up, Redis.answer)
          (from_cache-Validated first later
            (cached_value
              (ok (value_or_empty (Redis.live w.redis.now (lookup (cache_key hash) w.redis.keys)))))
            (counted w) soon h
            (λ q.
              valid-Recent (lookup (cache_key hash) w.redis.keys) w.redis.now h (cached_some _ q)))
  ]

  -- A check, in milliseconds: `wait` after the end of the check before it, with `first` between the
  -- answer of the cache and the query, and `later` between the query and the write to the cache.
  pub record Visit : Type 0 where
    pub wait : ℕ
    pub first : ℕ
    pub later : ℕ

  abbrev pub visit : {B : Type 0} → Visit → World B → Result Error Bool × World B
  visit v w = validate_amid (pass v.first) (pass v.later) hash (pass v.wait w)

  abbrev pub visits : {B : Type 0} → List Visit → World B → World B
  visits [] w = w
  visits (v ∷ vs) w = visits vs (visit v w).1

  abbrev pub IsPrompt : Visit → Type 0
  IsPrompt v = v.later ≤ delay

  visit-Validated :
      {B : Type 0} (v : Visit) (w : World B) → IsPrompt v → IsBacked w.redis → Validated (visit v w)
  visit-Validated v w prompt h =
      validate-Validated v.first v.later (pass v.wait w) prompt
        (IsBacked-later _ w.redis.now v.wait h)

  visits-IsBacked :
      {B : Type 0} (vs : List Visit) (w : World B)
      → All IsPrompt vs
      → IsBacked w.redis
      → IsBacked (visits vs w).redis
  visits-IsBacked [] w prompt h = h
  visits-IsBacked (v ∷ vs) w prompt h =
      visits-IsBacked vs (visit v w).1 prompt.1 (visit-Validated v w prompt.0 h).0

  -- A key that is admitted was live in the database less than five minutes and the delay ago, by
  -- Redis's clock when it is admitted, where the delay bounds the time that a check takes from its
  -- query to its write to the cache: whatever checks were made before, one after another, with
  -- whatever failures of Redis and of the database, and however the table of keys has changed between
  -- and during the checks, if the cache held nothing of the key at first.
  pub visit-Recent :
      {B : Type 0} (vs : List Visit) (v : Visit) (w : World B)
      → All IsPrompt vs
      → IsPrompt v
      → lookup (cache_key hash) w.redis.keys ≡ none
      → (visit v (visits vs w)).0 ≡ ok true
      → Recent (visit v (visits vs w)).1.redis.now
  visit-Recent vs v w prompt soon empty admitted =
      (visit-Validated v (visits vs w) soon (visits-IsBacked vs w prompt (rw empty tt))).1 admitted
