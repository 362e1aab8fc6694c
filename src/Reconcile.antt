-- ===== src/Reconcile.antt =====
-- internal/reconcile/reconcile.go.
pub mod Boot
use cage.Common.{String, List, [], ◌∷◌, Bool, true, false, if◌then◌else◌}
use cage.Common.Exec.{Exec, Error, Result, ok, err, wrap}
use cage.Backend.{SandboxBackend}
use cage.Store.{Sandbox, SandboxStatus, running, stopped, paused, list, delete}
use cage.Store
use cage.Lock.{DistributedLock, try_acquire, release}
use cage.World.{World, on_backend, on_db, on_redis}

module _ {B : Type 0} (sb : SandboxBackend B) where
  -- An error of the check is logged and the record is kept; so is an error of the deletion.
  abbrev pub checked : Result Error Bool → String → World B → World B
  checked (err e) id w = w
  checked (ok true) id w = w
  checked (ok false) id w = (on_db (delete id) w).1

  abbrev pub reconcile_running : String → World B → World B
  reconcile_running id w = let (r, w') = on_backend (sb.is_running id) w in checked r id w'

  -- The body of the loop.
  unfoldable pub reconcile_one : Sandbox → World B → World B
  reconcile_one row w = if Store.is_running row.status then reconcile_running row.id w else w

  unfoldable pub reconcile_all : List Sandbox → World B → World B
  reconcile_all [] w = w
  reconcile_all (row ∷ rows) w = reconcile_all rows (reconcile_one row w)

  abbrev pub listed : Result Error (List Sandbox) → World B → Result Error (Unit {0}) × World B
  listed (err e) w = (err e, w)
  listed (ok rows) w = (ok tt, reconcile_all rows w)

  -- The deferred Release runs after every return that follows it.
  abbrev pub with_release :
      DistributedLock → Result Error (Unit {0}) × World B → Result Error (Unit {0}) × World B
  with_release lock (r, w) = (r, (on_redis (release lock) w).1)

  abbrev pub elected :
      Result Error Bool → DistributedLock → World B → Result Error (Unit {0}) × World B
  elected (err e) lock w = (err (wrap "reconcile: lock acquire failed" e), w)
  elected (ok false) lock w = (ok tt, w)
  elected (ok true) lock w = let (r, w') = on_db list w in with_release lock (listed r w')

  unfoldable pub reconcile : DistributedLock → Exec Error (World B) (Unit {0})
  reconcile lock w = let (r, w') = on_redis (try_acquire lock) w in elected r lock w'
