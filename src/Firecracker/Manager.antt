-- ===== src/Firecracker/Manager.antt =====
-- internal/firecracker/manager.go: FirecrackerManager, its running VMs and the network's ledger.
-- Only create and kill, resume, adoption and the exit of a process change the table `running`; each
-- does so in one step, under the manager's lock.
pub mod Boot
pub mod Calls
pub mod Pauses
pub mod Untouched
pub mod Spec
pub mod Follows
pub mod Tracking
pub mod Ledger
pub mod Keys
use cage.Common.{
  ℕ, zero, suc, ◌+◌, ◌/◌, ltb, String, List, [], ◌∷◌, Bool, true, false, Option, none, some, concat,
  str_eq, ◌==◌, if◌then◌else◌,
}
use cage.Common.Dict.{Dict, lookup, insert, remove}
use cage.Common.Text.{concat_all, decimal, join_path}
use cage.Common.Exec.{
  Exec, Error, Result, ok, err, msg, wrap, pure, fail, gets, modify, attempt, from_result,
  with_context, or_wrap, ◌>>=◌, ◌>>◌,
}
use cage.Firecracker.Host.{Codec, Host}
use cage.Firecracker.Client
use cage.Firecracker.Network.{Ip, NetworkConfig, NetworkManager, allocate_tap, release_tap}
use cage.Firecracker.Polling.{poll_for}
use cage.Firecracker.Rootfs.{RootfsManager, new_rootfs_manager, prepare_for_sandbox, cleanup}
use cage.Firecracker.Vsock.{
  AgentRequest, AgentResponse, exec_request, write_file_request, read_file_request, send,
  wait_ready, dial_shell_conn,
}

pub record PauseManifest : Type 0 where
  pub rootfs_path : String
  pub snapshot_path : String
  pub mem_file_path : String

-- Its vsock client is known by the path of its socket.
pub record VmInstance : Type 0 where
  pub sandbox_id : String
  pub process : ℕ
  pub api_socket : String
  pub vsock_uds : String
  pub rootfs_path : String
  pub guest_ip : Option Ip

-- `network` is the configuration and the base address of the NetworkManager, where there is one.
pub record FirecrackerConfig : Type 0 where
  pub firecracker_bin : String
  pub kernel_path : String
  pub run_dir : String
  pub rootfs : RootfsManager
  pub vcpu_count : ℕ
  pub mem_size_mib : ℕ
  pub boot_timeout : ℕ
  pub network : Option (NetworkConfig × Ip)

pub record FirecrackerManager (H : Type 0) : Type 0 where
  pub net : NetworkManager H
  pub running : Dict VmInstance

-- What the manager is built over: the machine, and JSON at the types that it carries.
pub record Machine (H : Type 0) : Type 0 where
  pub os : Host H
  pub requests : Codec AgentRequest
  pub responses : Codec AgentResponse
  pub manifests : Codec PauseManifest

abbrev show_ip : Option Ip → String
show_ip none = "<nil>"
show_ip (some ip) =
    concat_all (decimal ip.a ∷ "." ∷ decimal ip.b ∷ "." ∷ decimal ip.c ∷ "." ∷ decimal ip.d ∷ [])

module _ {H A : Type 0} where
  abbrev pub on_net : Exec Error (NetworkManager H) A → Exec Error (FirecrackerManager H) A
  on_net m fm = let (r, nm) = m fm.net in (r, record fm { net = nm })

  abbrev pub on_machine : Exec Error H A → Exec Error (FirecrackerManager H) A
  on_machine m = on_net λ nm. let (r, h) = m nm.host in (r, record nm { host = h })

  -- An error that is returned once `undo` is done.
  abbrev pub undoing :
      Exec Error (FirecrackerManager H) (Unit {0})
      → Exec Error (FirecrackerManager H) A
      → Exec Error (FirecrackerManager H) A
  undoing undo m = do r ← attempt m; settled r
    where
      settled : Result Error A → Exec Error (FirecrackerManager H) A
      settled (ok a) = pure a
      settled (err e) = undo >> fail e

module _ {H : Type 0} (os : Host H) (base_dir : String) (cfg : FirecrackerConfig) where
  abbrev made : Exec Error H (FirecrackerConfig × Dict VmInstance)
  made = do
    or_wrap "failed to create run dir" (os.mkdir_all cfg.run_dir)
    rootfs ← new_rootfs_manager os base_dir (join_path cfg.run_dir "rootfs")
    pure (
      record cfg {
        rootfs = rootfs;
        boot_timeout = if cfg.boot_timeout == 0 then 10000 else cfg.boot_timeout;
      },
      [],
    )

  -- NewFirecrackerManager over a base directory: the configuration with its defaults, and no VM.
  unfoldable pub new_firecracker_manager :
      Exec Error (NetworkManager H) (FirecrackerConfig × Dict VmInstance)
  new_firecracker_manager nm = let (r, h) = made nm.host in (r, record nm { host = h })

module _ {H : Type 0} (mc : Machine H) (cfg : FirecrackerConfig) where
  abbrev pub M : Type 0 → Type 0
  M A = Exec Error (FirecrackerManager H) A

  abbrev pub remove_file_if_exists : String → M (Unit {0})
  remove_file_if_exists path = do _ ← attempt (on_machine (mc.os.remove path)); pure tt

  abbrev pub kill_process : ℕ → M (Unit {0})
  kill_process p = do _ ← attempt (on_machine (mc.os.kill p)); pure tt

  abbrev pub api_socket_of : String → String
  api_socket_of id = join_path cfg.run_dir (concat id ".api.sock")

  abbrev pub vsock_uds_of : String → String
  vsock_uds_of id = join_path cfg.run_dir (concat id ".vsock")

  abbrev pub cleanup_rootfs : String → M (Unit {0})
  cleanup_rootfs id = do _ ← attempt (on_machine (cleanup mc.os cfg.rootfs id)); pure tt

  -- The process of a VM, its rootfs beside it, and its socket: what both create and resume wait for.
  abbrev pub spawn_process : String → M ℕ
  spawn_process id = on_machine (mc.os.spawn cfg.firecracker_bin (api_socket_of id))

  abbrev pub track : String → VmInstance → M (Unit {0})
  track id vm = modify λ fm. record fm { running = insert id vm fm.running }

  abbrev pub released : Option (NetworkConfig × Ip) → String → Option Ip → M (Unit {0})
  released (some (nc, base)) id (some ip) =
      modify λ fm. record fm { net = release_tap mc.os.run nc base id ip fm.net }
  released _ id _ = pure tt

  unfoldable pub wait_for_socket : String → ℕ → Exec Error H (Unit {0})
  wait_for_socket path timeout =
      let timed_out = msg (concat "timed out waiting for " path) in
      poll_for mc.os 50 (λ _. timed_out) (mc.os.stat path) timeout timed_out
