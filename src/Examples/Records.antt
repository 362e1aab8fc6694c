-- ===== src/Examples/Records.antt =====
-- The theorems on the tables, the lock, the reaper and the reconciliation, at small tables.
use cage.Common.{List, [], ◌∷◌, ◌≡◌, refl, none, some, true, arith}
use cage.Common.Dict
use cage.Common.Exec.{Error, ok, err}
use cage.Docker.Adapter
use cage.Docker.Adapter.{Adapter, kill_sandbox, no_container}
use cage.Docker.Manager
use cage.Store.{row_of}
use cage.Redis
use cage.Redis.{Redis}
use cage.Lock.{DistributedLock, try_acquire, renew, milliseconds}
use cage.Lock.Lease.{Event, acquires, releases, run, try_acquire_excludes, renew_thousandfold}
use cage.World.{World}
use cage.Reaper.{reap, reap_running}
use cage.Reaper.Expiry.{IsKeyed}
use cage.Reaper.Exact.{AllSucceed, expired_rows, queried, reap_exact}
use cage.Reaper.Retry.{reap_running_stuck}
use cage.Reconcile.{reconcile}
use cage.Reconcile.Boot.{reconcile_forgets_running}
use cage.Examples.Daemon.{Daemon, docker, tar}
use cage.Examples.Worlds.{adapter, busy_daemon, running_row, db, redis, world, api}

-- Two replicas, with a time to live of one second.
abbrev mine : DistributedLock
mine = record { key = "lock:reaper"; token = "a"; ttl = 1000000000 }

abbrev theirs : DistributedLock
theirs = record { key = "lock:reaper"; token = "b"; ttl = 1000000000 }

abbrev attempts : List Event
attempts =
    record { wait = 300; op = acquires; lock = theirs }
    ∷ record { wait = 300; op = releases; lock = theirs }
    ∷ record { wait = 300; op = acquires; lock = theirs }
    ∷ []

mine_wins : (try_acquire mine redis).0 ≡ ok true
unfolding try_acquire Redis.get Redis.set Dict.lookup
mine_wins = refl

try_acquire_excludes_example :
    (Redis.get "lock:reaper" redis ≡ none)
    × ((run "lock:reaper" attempts (try_acquire mine redis).1).0 ≡ 0)
    × (Redis.get "lock:reaper" (run "lock:reaper" attempts (try_acquire mine redis).1).1 ≡ some "a")
try_acquire_excludes_example =
    try_acquire_excludes mine attempts redis mine_wins (refl, (refl, (refl, tt))) (omega arith)

abbrev held : Redis
held = record redis { keys = ("lock:reaper", record { value = "a"; expires = 500 }) ∷ [] }

mine_renews : (renew mine held).0 ≡ ok true
unfolding renew Redis.get Redis.pexpire Dict.lookup
mine_renews = refl

renew_thousandfold_example :
    (milliseconds mine.ttl ≡ 1000)
    × (Dict.lookup "lock:reaper" (renew mine held).1.keys
        ≡ some (record { value = "a"; expires = 1000000 }))
renew_thousandfold_example = renew_thousandfold mine 1000 held refl mine_renews

db-IsKeyed : IsKeyed db.sandboxes
db-IsKeyed = ((refl, tt), (tt, tt))

-- The Docker adapter kills the container of the one record that has expired.
kills : AllSucceed api.sb (expired_rows world) (queried world)
unfolding kill_sandbox Adapter.container_for Adapter.unregister Manager.kill_sandbox Dict.lookup
kills = (refl, tt)

reap_exact_example : row_of "u1" (reap api.sb world).db.sandboxes ≡ none
unfolding row_of
reap_exact_example = reap_exact api.sb "u1" world kills (λ n. refl) db-IsKeyed

-- The container is gone: the kill fails.
abbrev lost : World (Adapter Daemon)
lost = record world { backend = record adapter { containers = ("u1", "c9") ∷ [] } }

lost_kill : (e : Error) × ((kill_sandbox docker "u1" lost.backend).0 ≡ err e)
unfolding kill_sandbox Adapter.container_for Adapter.unregister Manager.kill_sandbox Dict.lookup
lost_kill = (_, refl)

reap_running_stuck_example :
    let w' = reap_running (Adapter.backend docker tar) running_row lost in
    (w'.db ≡ lost.db) × (reap_running (Adapter.backend docker tar) running_row w' ≡ w')
reap_running_stuck_example = reap_running_stuck docker tar running_row lost lost_kill.0 lost_kill.1

-- The server has just started: the daemon still runs the container, the map is empty.
abbrev booted : World (Adapter Daemon)
booted = record world { backend = Adapter.new_adapter busy_daemon }

reconcile_forgets_running_example :
    row_of "u1" (reconcile (Adapter.backend docker tar) mine booted).1.db.sandboxes ≡ none
unfolding row_of
reconcile_forgets_running_example =
    reconcile_forgets_running docker tar mine "u1" running_row booted refl (λ n. refl) mine_wins
      refl refl
