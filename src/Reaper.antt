-- ===== src/Reaper.antt =====
-- internal/reaper/reaper.go. Its errors are logged and the loop goes on, so each function gives the
-- state it leaves.
pub mod Expiry
pub mod Exact
pub mod Retry
use cage.Common.{ℕ, suc, String, List, [], ◌∷◌, Option, none, some, Bool, true, false}
use cage.Common.Exec.{Exec, Error, Result, ok, err}
use cage.Backend.{SandboxBackend, ImageCleaner, as_image_cleaner}
use cage.Store.{Sandbox, SandboxStatus, running, stopped, paused, list_expired, delete}
use cage.Lock.{DistributedLock, try_acquire, release}
use cage.World.{World, on_backend, on_db, on_redis}

module _ {B : Type 0} where
  abbrev pub count_reaped : Result Error (Unit {0}) → World B → World B
  count_reaped (ok _) w = record w { sandboxes_reaped = suc w.sandboxes_reaped }
  count_reaped (err e) w = w

  -- store.Delete, and the metric where it succeeds.
  unfoldable pub delete_record : String → World B → World B
  delete_record id w = let (r, w') = on_db (delete id) w in count_reaped r w'

  -- `_ = r.store.Delete(…)`: no metric.
  unfoldable pub drop_record : String → World B → World B
  drop_record id w = (on_db (delete id) w).1

  -- What follows a kill or a removal: the record is deleted only if that succeeded.
  abbrev pub after_cleanup : Result Error (Unit {0}) → String → World B → World B
  after_cleanup (ok _) id w = delete_record id w
  after_cleanup (err e) id w = w

  abbrev pub remove_paused : Option (ImageCleaner B) → Option String → Sandbox → World B → World B
  remove_paused cleaner none row w = drop_record row.id w
  remove_paused none (some image) row w = drop_record row.id w
  remove_paused (some cleaner) (some image) row w =
      let (r, w') = on_backend (cleaner.remove_image image) w in after_cleanup r row.id w'

module _ {B : Type 0} (sb : SandboxBackend B) where
  unfoldable pub reap_running : Sandbox → World B → World B
  reap_running row w =
      let (r, w') = on_backend (sb.kill_sandbox row.id) w in after_cleanup r row.id w'

  unfoldable pub reap_paused : Sandbox → World B → World B
  reap_paused row = remove_paused (as_image_cleaner sb) row.paused_image_id row

  abbrev pub by_status : SandboxStatus → Sandbox → World B → World B
  by_status running row w = reap_running row w
  by_status paused row w = reap_paused row w
  by_status stopped row w = w

  unfoldable pub reap_one : Sandbox → World B → World B
  reap_one row w = by_status row.status row w

  unfoldable pub reap_all : List Sandbox → World B → World B
  reap_all [] w = w
  reap_all (row ∷ rows) w = reap_all rows (reap_one row w)

  abbrev pub listed : Result Error (List Sandbox) → World B → World B
  listed (err e) w = w
  listed (ok expired) w = reap_all expired w

  unfoldable pub reap : World B → World B
  reap w = let (r, w') = on_db list_expired w in listed r w'

  abbrev pub elected : Result Error Bool → DistributedLock → World B → World B
  elected (err e) lock w = w
  elected (ok false) lock w = w
  elected (ok true) lock w = (on_redis (release lock) (reap w)).1

  -- One tick of Start.
  unfoldable pub tick : DistributedLock → World B → World B
  tick lock w = let (r, w') = on_redis (try_acquire lock) w in elected r lock w'
