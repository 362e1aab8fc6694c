-- ===== src/Firecracker/Manager/Pauses.antt =====
-- internal/firecracker/manager.go: PauseSandbox, ResumeSandbox and RemoveImage.
use cage.Common.{String, none}
use cage.Common.Text.{join_path}
use cage.Common.Exec.{
  Error, Result, ok, err, pure, attempt, from_result, with_context, or_wrap, ◌>>=◌, ◌>>◌,
}
use cage.Firecracker.Client
use cage.Firecracker.Manager.{
  FirecrackerConfig, Machine, PauseManifest, VmInstance, M, on_machine, undoing,
  remove_file_if_exists, kill_process, spawn_process, track, wait_for_socket, api_socket_of,
  vsock_uds_of,
}
use cage.Firecracker.Manager.Calls.{get, untrack}
use cage.Firecracker.Vsock.{wait_ready}

module _ {H : Type 0} (mc : Machine H) (cfg : FirecrackerConfig) where
  abbrev pub pause_dir_of : String → String
  pause_dir_of id = join_path cfg.run_dir (join_path "pauses" id)

  abbrev pub discarded : String → M mc cfg (Unit {0})
  discarded dir = do _ ← attempt (on_machine (mc.os.remove_all dir)); pure tt

  -- The directory goes when the snapshot fails, and the pause goes on.
  abbrev pub snapshot_taken : String → Result Error (Unit {0}) → M mc cfg (Unit {0})
  snapshot_taken dir (ok _) = pure tt
  snapshot_taken dir (err e) = discarded dir

  abbrev pub manifest_of : VmInstance → String → PauseManifest
  manifest_of vm dir = record {
    rootfs_path = vm.rootfs_path;
    snapshot_path = join_path dir "snapshot.file";
    mem_file_path = join_path dir "memory.file";
  }

  -- PauseSandbox on the VM that it found, up to the table of running VMs. A manifest of three texts
  -- marshals, so that error of the source's has no case.
  unfoldable pub suspend : VmInstance → String → M mc cfg (Unit {0})
  suspend vm dir = do
    or_wrap "failed to create pause dir" (on_machine (mc.os.mkdir_all dir))
    undoing (discarded dir)
        (or_wrap "failed to pause vm" (on_machine (Client.pause_vm mc.os vm.api_socket)))
    taken ← attempt (
        on_machine (
          Client.create_snapshot mc.os vm.api_socket (join_path dir "snapshot.file")
            (join_path dir "memory.file")))
    snapshot_taken dir taken
    undoing (discarded dir) (
        or_wrap "failed to write pause manifest" (
          on_machine (
            mc.os.write_file (join_path dir "manifest.json")
              (mc.manifests.marshal (manifest_of vm dir)))))
    kill_process mc cfg vm.process
    remove_file_if_exists mc cfg vm.api_socket
    remove_file_if_exists mc cfg vm.vsock_uds

  unfoldable pub pause_sandbox : String → M mc cfg String
  pause_sandbox id = do
    vm ← get mc cfg id
    suspend vm (pause_dir_of id)
    untrack mc cfg id
    pure (pause_dir_of id)

  abbrev pub manifest_read : String → M mc cfg PauseManifest
  manifest_read ref = do
    bytes ←
        or_wrap "failed to road pause manifest"
          (on_machine (mc.os.read_file (join_path ref "manifest.json")))
    from_result (with_context "failed to parse pause manifest" (mc.manifests.unmarshal bytes))

  -- ResumeSandbox up to the table of running VMs.
  unfoldable pub restore : String → String → M mc cfg VmInstance
  restore id ref = do
    manifest ← manifest_read ref
    or_wrap "rootfs referenced by snapshot is missing"
        (on_machine (mc.os.stat manifest.rootfs_path))
    remove_file_if_exists mc cfg (api_socket_of mc cfg id)
    remove_file_if_exists mc cfg (vsock_uds_of mc cfg id)
    process ← or_wrap "failed to start firecracker process for resume" (spawn_process mc cfg id)
    undoing (kill_process mc cfg process) (
        or_wrap "firecracker api socket never appeared during resume"
          (on_machine (wait_for_socket mc cfg (api_socket_of mc cfg id) 3000)))
    undoing (kill_process mc cfg process) (
        or_wrap "failed to load snapshot" (
          on_machine (
            Client.load_snapshot mc.os (api_socket_of mc cfg id) manifest.snapshot_path
              manifest.mem_file_path)))
    undoing (kill_process mc cfg process) (
        or_wrap "guest agent did not respond after resume"
          (on_machine (wait_ready mc.os mc.requests mc.responses (vsock_uds_of mc cfg id) 5000)))
    pure (record {
      sandbox_id = id;
      process = process;
      api_socket = api_socket_of mc cfg id;
      vsock_uds = vsock_uds_of mc cfg id;
      rootfs_path = manifest.rootfs_path;
      guest_ip = none;
    })

  unfoldable pub resume_sandbox : String → String → M mc cfg (Unit {0})
  resume_sandbox id ref = do vm ← restore id ref; track mc cfg id vm

  unfoldable pub remove_image : String → M mc cfg (Unit {0})
  remove_image ref = do
    manifest ← attempt (manifest_read ref)
    rootfs_removed manifest
    or_wrap "failed to remove pause directory" (on_machine (mc.os.remove_all ref))
    where
      rootfs_removed : Result Error PauseManifest → M mc cfg (Unit {0})
      rootfs_removed (ok manifest) = remove_file_if_exists mc cfg manifest.rootfs_path
      rootfs_removed (err e) = pure tt
