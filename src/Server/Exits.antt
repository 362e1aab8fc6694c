-- ===== src/Server/Exits.antt =====
-- cmd/cage/main.go: what the exit status tells.
use cage.Common.{ℕ, true, none, some, ◌≡◌, arith}
use cage.Common.Exec.{Error, Result, ok, err}
use cage.Config.{Config}
use cage.World.{World}
use cage.Server.Start.{
  Machinery, refused, Exit, is_firecracker, connect, network_config, make_backend, assemble, run,
  main,
}

abbrev IsReported : {A : Type 0} → Result Exit A → Type 0
IsReported (ok a) = Unit {0}
IsReported (err none) = ⊥
IsReported (err (some e)) = Unit {0}

module _ {B N : Type 0} (m : Machinery B N) (cfg : Config ℕ ℕ) where
  -- On firecracker, where the configuration is read and the stores are connected, a network manager
  -- that cannot be made ends the process with status 0 and the cache closed, and nothing was served.
  pub main_silent :
      (w w₁ w₂ : World B) (e : Error)
      → m.load_config ≡ ok cfg
      → is_firecracker cfg ≡ true
      → connect m cfg w ≡ (ok tt, w₁)
      → m.new_network_manager (network_config cfg) w₁ ≡ (err e, w₂)
      → (main m w ≡ 0) × (run m w ≡ (refused none, (m.close_cache w₂).1))
  unfolding main run assemble make_backend
  main_silent w w₁ w₂ e l f c n = ground arith
