-- ===== src/Firecracker/Client.antt =====
-- internal/firecracker/client.go: the client of one firecracker process's API socket.
use cage.Common.{ℕ, String, List, [], ◌∷◌, true, false, leb, if◌then◌else◌}
use cage.Common.Text.{concat_all, decimal}
use cage.Common.Exec.{Exec, Error, msg, pure, fail, or_wrap, ◌>>=◌}
use cage.Firecracker.Host.{Json, text, number, flag, Reply, Host}

module _ {H : Type 0} (os : Host H) (socket : String) where
  -- A body marshals and a request builds whatever the texts in it, so neither can fail.
  abbrev request : String → String → List (String × Json) → Exec Error H (Unit {0})
  request method path body = do
    reply ←
        or_wrap "firecracker api request failed"
          (os.exchange socket (record { method = method; path = path; body = body }))
    checked path reply
    where
      checked : String → Reply → Exec Error H (Unit {0})
      checked path reply =
          if leb 300 reply.status_code
          then fail (
              msg (
                concat_all (
                  "firecracker api error on "
                  ∷ path
                  ∷ " (status "
                  ∷ decimal reply.status_code
                  ∷ "): "
                  ∷ reply.body
                  ∷ [])))
          else pure tt

  unfoldable pub put : String → List (String × Json) → Exec Error H (Unit {0})
  put = request "PUT"

  unfoldable pub patch : String → List (String × Json) → Exec Error H (Unit {0})
  patch = request "PATCH"

  abbrev pub set_boot_source : String → String → Exec Error H (Unit {0})
  set_boot_source kernel_path boot_args =
      put "/boot-source"
        (("kernel_image_path", text kernel_path) ∷ ("boot_args", text boot_args) ∷ [])

  abbrev pub set_root_drive : String → Exec Error H (Unit {0})
  set_root_drive rootfs_path = put "/drives/rootfs" (
      ("drive_id", text "rootfs")
      ∷ ("path_on_host", text rootfs_path)
      ∷ ("is_root_device", flag true)
      ∷ ("is_read_only", flag false)
      ∷ [])

  abbrev pub set_vsock : ℕ → String → Exec Error H (Unit {0})
  set_vsock guest_cid uds_path =
      put "/vsock" (("guest_cid", number guest_cid) ∷ ("uds_path", text uds_path) ∷ [])

  abbrev pub set_machine_config : ℕ → ℕ → Exec Error H (Unit {0})
  set_machine_config vcpu_count mem_size_mib =
      put "/machine-config"
        (("vcpu_count", number vcpu_count) ∷ ("mem_size_mib", number mem_size_mib) ∷ [])

  abbrev pub pause_vm : Exec Error H (Unit {0})
  pause_vm = patch "/vm" (("state", text "Paused") ∷ [])

  abbrev pub create_snapshot : String → String → Exec Error H (Unit {0})
  create_snapshot snapshot_path mem_file_path = put "/snapshot/create" (
      ("snapshot_type", text "Full")
      ∷ ("snapshot_path", text snapshot_path)
      ∷ ("mem_file_path", text mem_file_path)
      ∷ [])

  abbrev pub load_snapshot : String → String → Exec Error H (Unit {0})
  load_snapshot snapshot_path mem_file_path = put "/snapshot/load" (
      ("snapshot_path", text snapshot_path)
      ∷ ("mem_file_path", text mem_file_path)
      ∷ ("resume_vm", flag true)
      ∷ [])

  abbrev pub start_instance : Exec Error H (Unit {0})
  start_instance = put "/actions" (("action_type", text "InstanceStart") ∷ [])

  abbrev pub set_network_interface : String → Exec Error H (Unit {0})
  set_network_interface tap_name =
      put "/network-interfaces/eth0"
        (("iface_id", text "eth0") ∷ ("host_dev_name", text tap_name) ∷ [])
