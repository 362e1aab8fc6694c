-- ===== src/Reaper/Retry.antt =====
-- The retry that reapRunning leaves to the next tick, over the Docker adapter.
use cage.Common.{◌≡◌, refl, ap, ◌∙◌}
use cage.Common.Exec.{Error, err}
use cage.Docker.Client.{DockerClient, Tar}
use cage.Docker.Adapter
use cage.Docker.Adapter.{Adapter, kill_sandbox, no_container}
use cage.Docker.Adapter.Histories.{kill_sandbox_again}
use cage.Store.{Sandbox}
use cage.World.{World}
use cage.Reaper.{reap_running}

module _ {D A : Type 0} (docker : DockerClient D A) (tar : Tar A) where
  failed_kill :
      (row : Sandbox) (w : World (Adapter D)) (e : Error)
      → (kill_sandbox docker row.id w.backend).0 ≡ err e
      → reap_running (Adapter.backend docker tar) row w
        ≡ record w { backend = (kill_sandbox docker row.id w.backend).1 }
  unfolding reap_running
  failed_kill row w e failed = rw failed

  -- Once the kill of an expired running sandbox has failed on the Docker backend, reaping it again
  -- changes nothing: its record stays, and no later attempt reaches its container.
  pub reap_running_stuck :
      (row : Sandbox) (w : World (Adapter D)) (e : Error)
      → (kill_sandbox docker row.id w.backend).0 ≡ err e
      → let w' = reap_running (Adapter.backend docker tar) row w in
        (w'.db ≡ w.db) × (reap_running (Adapter.backend docker tar) row w' ≡ w')
  reap_running_stuck row w e failed =
      let again = kill_sandbox_again docker row.id w.backend in
      let w' = record w { backend = (kill_sandbox docker row.id w.backend).1 } in
      rw (failed_kill row w e failed) (
        refl,
        failed_kill row w' (no_container row.id) (ap (λ p. p.0) again)
            ∙ ap (λ (b : Adapter D). record w { backend = b }) (ap (λ p. p.1) again),
      )
