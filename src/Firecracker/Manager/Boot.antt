-- ===== src/Firecracker/Manager/Boot.antt =====
-- internal/firecracker/manager.go: CreateSandbox, and what it undoes when it fails.
use cage.Common.{ℕ, String, [], ◌∷◌, Option, none, some, str_eq, if◌then◌else◌}
use cage.Common.Text.{concat_all}
use cage.Common.Exec.{pure, attempt, or_wrap, ◌>>=◌, ◌>>◌}
use cage.Firecracker.Client
use cage.Firecracker.Manager.{
  FirecrackerConfig, Machine, VmInstance, M, show_ip, on_net, on_machine, undoing,
  remove_file_if_exists, kill_process, cleanup_rootfs, spawn_process, released, track,
  wait_for_socket, api_socket_of, vsock_uds_of,
}
use cage.Firecracker.Network.{Ip, NetworkConfig, allocate_tap}
use cage.Firecracker.Rootfs.{prepare_for_sandbox}
use cage.Firecracker.Vsock.{write_file_request, send, wait_ready}

module _ {H : Type 0} (mc : Machine H) (cfg : FirecrackerConfig) where
  -- The tap device and the address, where the sandbox is on a network.
  unfoldable pub allocated : Option (NetworkConfig × Ip) → String → M mc cfg (Option (String × Ip))
  allocated none id = pure none
  allocated (some (nc, base)) id =
      if nc.enabled
      then (do t ← on_net (allocate_tap mc.os.run nc base id); pure (some t))
      else pure none

  abbrev pub guest_ip : Option (String × Ip) → Option Ip
  guest_ip none = none
  guest_ip (some (tap, ip)) = some ip

  -- The gateway is the bridge's own address.
  abbrev pub boot_args : Option (NetworkConfig × Ip) → Option (String × Ip) → String
  boot_args (some (nc, base)) (some (tap, ip)) = concat_all (
      "console=ttyS0 reboot=k panic=1 pci=off"
      ∷ " ip="
      ∷ show_ip (some ip)
      ∷ "::"
      ∷ show_ip (mc.os.parse_cidr nc.bridge_cidr)
      ∷ ":255.255.255.0::eth0:off"
      ∷ [])
  boot_args _ _ = "console=ttyS0 reboot=k panic=1 pci=off"

  abbrev pub interface_set : String → Option (String × Ip) → M mc cfg (Unit {0})
  interface_set socket none = pure tt
  interface_set socket (some (tap, ip)) = on_machine (Client.set_network_interface mc.os socket tap)

  -- From the first request to the guest agent's answer: the stages that `rollback` covers.
  unfoldable pub configured : String → String → Option (String × Ip) → M mc cfg (Unit {0})
  configured id rootfs_path tap =
      let socket = api_socket_of mc cfg id in
      let uds = vsock_uds_of mc cfg id in
      do
        on_machine (Client.set_machine_config mc.os socket cfg.vcpu_count cfg.mem_size_mib)
        on_machine (Client.set_boot_source mc.os socket cfg.kernel_path (boot_args cfg.network tap))
        on_machine (Client.set_root_drive mc.os socket rootfs_path)
        interface_set socket tap
        on_machine (Client.set_vsock mc.os socket 3 uds)
        on_machine (Client.start_instance mc.os socket)
        or_wrap "guest agent never became ready"
            (on_machine (wait_ready mc.os mc.requests mc.responses uds cfg.boot_timeout))

  -- The guest's name server; a failure is logged only.
  unfoldable pub resolving :
      String → Option (NetworkConfig × Ip) → Option (String × Ip) → M mc cfg (Unit {0})
  resolving id (some (nc, base)) (some (tap, ip)) = if str_eq nc.dns_server "" then pure tt else (do
    _ ← attempt (
        on_machine (
          send mc.os mc.requests mc.responses (vsock_uds_of mc cfg id) (
            write_file_request "/etc/resolv.conf"
              (concat_all ("nameserver " ∷ nc.dns_server ∷ "\n" ∷ [])))))
    pure tt)
  resolving id _ _ = pure tt

  -- A process whose guest agent answers; with the tap device goes the address when a stage fails.
  unfoldable pub launch : String → String → Option (String × Ip) → M mc cfg ℕ
  launch id rootfs_path tap =
      let clean = cleanup_rootfs mc cfg id in
      do
        process ←
            undoing clean (or_wrap "failed to start firecracker process" (spawn_process mc cfg id))
        undoing (kill_process mc cfg process >> clean) (
            or_wrap "firecracker api socket never appeared"
              (on_machine (wait_for_socket mc cfg (api_socket_of mc cfg id) 3000)))
        undoing
            (kill_process mc cfg process >> clean >> released mc cfg cfg.network id (guest_ip tap))
            (configured id rootfs_path tap)
        pure process

  -- CreateSandbox up to the table of running VMs.
  unfoldable pub boot : String → String → M mc cfg VmInstance
  boot id slug = do
    rootfs_path ←
        or_wrap "rootfs prepare failed" (on_machine (prepare_for_sandbox mc.os cfg.rootfs id slug))
    remove_file_if_exists mc cfg (api_socket_of mc cfg id)
    remove_file_if_exists mc cfg (vsock_uds_of mc cfg id)
    tap ←
        undoing (cleanup_rootfs mc cfg id)
          (or_wrap "failed to allocate network" (allocated cfg.network id))
    process ← launch id rootfs_path tap
    resolving id cfg.network tap
    pure (record {
      sandbox_id = id;
      process = process;
      api_socket = api_socket_of mc cfg id;
      vsock_uds = vsock_uds_of mc cfg id;
      rootfs_path = rootfs_path;
      guest_ip = guest_ip tap;
    })

  -- The goroutine that waits for the process's exit is the call `exited` of Calls.
  unfoldable pub create_sandbox : String → String → M mc cfg (Unit {0})
  create_sandbox id slug = do vm ← boot id slug; track mc cfg id vm
