-- ===== src/Firecracker/Manager/Calls.antt =====
-- internal/firecracker/manager.go: the calls on a VM that runs, its adoption, and its end.
use cage.Common.{
  ℕ, String, List, Bool, true, false, Option, none, some, concat, ◌==◌, if◌then◌else◌,
}
use cage.Common.Dict.{lookup, insert, remove}
use cage.Common.Exec.{msg, pure, fail, gets, modify, ◌>>=◌, ◌>>◌}
use cage.Firecracker.Manager.{
  FirecrackerConfig, Machine, VmInstance, M, on_machine, kill_process, remove_file_if_exists,
  released,
}
use cage.Firecracker.Rootfs.{cleanup}
use cage.Firecracker.Vsock.{
  AgentRequest, AgentResponse, exec_request, write_file_request, read_file_request, send,
  dial_shell_conn,
}

module _ {H : Type 0} (mc : Machine H) (cfg : FirecrackerConfig) where
  abbrev pub found : String → Option VmInstance → M mc cfg VmInstance
  found id none = fail (msg (concat "no running sandbox with id " id))
  found id (some vm) = pure vm

  unfoldable pub get : String → M mc cfg VmInstance
  get id = do vm ← gets λ fm. lookup id fm.running; found id vm

  abbrev pub ask : String → AgentRequest → M mc cfg AgentResponse
  ask id req = do vm ← get id; on_machine (send mc.os mc.requests mc.responses vm.vsock_uds req)

  unfoldable pub exec_command : String → List String → M mc cfg (String × String × ℕ)
  exec_command id cmd = do
    resp ← ask id (exec_request cmd)
    pure (resp.stdout, resp.stderr, resp.exit_code)

  unfoldable pub write_file : String → String → String → M mc cfg (Unit {0})
  write_file id path content = do _ ← ask id (write_file_request path content); pure tt

  unfoldable pub read_file : String → String → M mc cfg String
  read_file id path = do resp ← ask id (read_file_request path); pure resp.content

  abbrev pub is_tracked : Option VmInstance → Bool
  is_tracked none = false
  is_tracked (some vm) = true

  unfoldable pub is_running : String → M mc cfg Bool
  is_running id = gets λ fm. is_tracked (lookup id fm.running)

  unfoldable pub open_shell : String → M mc cfg ℕ
  open_shell id = do vm ← get id; on_machine (dial_shell_conn mc.os vm.vsock_uds)

  abbrev pub untrack : String → M mc cfg (Unit {0})
  untrack id = modify λ fm. record fm { running = remove id fm.running }

  -- KillSandbox once the VM is off the table. A process that cannot be killed is logged only.
  unfoldable pub dismantle : VmInstance → String → M mc cfg (Unit {0})
  dismantle vm id = do
    kill_process mc cfg vm.process
    remove_file_if_exists mc cfg vm.api_socket
    remove_file_if_exists mc cfg vm.vsock_uds
    released mc cfg cfg.network id vm.guest_ip
    on_machine (cleanup mc.os cfg.rootfs id)

  unfoldable pub kill_sandbox : String → M mc cfg (Unit {0})
  kill_sandbox id = do vm ← get id; untrack id; dismantle vm id

  abbrev pub is_process : ℕ → Option VmInstance → Bool
  is_process p none = false
  is_process p (some vm) = vm.process == p

  -- watchProcessExit, from the return of Wait on.
  unfoldable pub exited : String → ℕ → M mc cfg (Unit {0})
  exited id p = modify λ fm.
      if is_process p (lookup id fm.running)
      then record fm { running = remove id fm.running }
      else fm

  -- The placeholder's key goes before the sandbox's comes.
  abbrev pub adopted : String → String → Option VmInstance → M mc cfg (Unit {0})
  adopted id placeholder_id none =
      fail (msg (concat "no running vm for warm placeholder " placeholder_id))
  adopted id placeholder_id (some vm) = modify λ fm. record fm {
    running = insert id (record vm { sandbox_id = id }) (remove placeholder_id fm.running);
  }

  unfoldable pub adopt_warm_resource : String → String → M mc cfg (Unit {0})
  adopt_warm_resource id placeholder_id = do
    vm ← gets λ fm. lookup placeholder_id fm.running
    adopted id placeholder_id vm
