-- ===== src/Firecracker/Manager/Ledger.antt =====
-- The guests' addresses through the manager's calls: which calls give one back, and which lose one.
use cage.Common.{
  ap, ◌∙◌, ℕ, ◌∷◌, List, String, Bool, ◌&&◌, Option, none, some, ◌≡◌, refl, if◌then◌else◌, arith,
}
use cage.Common.Dict.{lookup, lookup-insert_self}
use cage.Common.Exec.{Error, Result, ok, err, and_then}
use cage.Firecracker.Manager.{
  track, FirecrackerConfig, FirecrackerManager, Machine, VmInstance, wait_for_socket, api_socket_of,
}
use cage.Firecracker.Manager.Boot.{configured, launch, guest_ip}
use cage.Firecracker.Manager.Calls.{dismantle, get, kill_sandbox}
use cage.Firecracker.Manager.Follows.{is_ok}
use cage.Firecracker.Manager.Pauses.{suspend, restore, resume_sandbox}
use cage.Firecracker.Network.{Ip, NetworkConfig, NetworkManager, ip_offset, release_ip, release_tap}

abbrev pub ledger : {H : Type 0} → FirecrackerManager H → ℕ × List ℕ
ledger fm = (fm.net.next_ip, fm.net.released)

-- The ledger once an address is back.
abbrev pub returned : Option (NetworkConfig × Ip) → Option Ip → ℕ × List ℕ → ℕ × List ℕ
returned (some (nc, base)) (some ip) l = if nc.enabled then (l.0, ip_offset base ip ∷ l.1) else l
returned _ _ l = l

returned-none : (net : Option (NetworkConfig × Ip)) (l : ℕ × List ℕ) → returned net none l ≡ l
returned-none none l = refl
returned-none (some x) l = refl

module _ {H : Type 0} (mc : Machine H) (cfg : FirecrackerConfig) where
  ledger-configured :
      (id path : String) (tap : Option (String × Ip))
      → (s : FirecrackerManager H) → ledger (configured mc cfg id path tap s).1 ≡ ledger s
  unfolding configured
  ledger-configured id path none s = ground arith
  ledger-configured id path (some (t, ip)) s = ground arith

  release_tap-next_ip :
      (nc : NetworkConfig) (base : Ip) (id : String) (ip : Ip) (nm : NetworkManager H)
      → (release_tap mc.os.run nc base id ip nm).next_ip ≡ nm.next_ip
  unfolding release_tap release_ip
  release_tap-next_ip nc base id ip nm = ground arith

  release_tap-released :
      (nc : NetworkConfig) (base : Ip) (id : String) (ip : Ip) (nm : NetworkManager H)
      → (release_tap mc.os.run nc base id ip nm).released
        ≡ (if nc.enabled then ip_offset base ip ∷ nm.released else nm.released)
  unfolding release_tap release_ip
  release_tap-released nc base id ip nm = ground arith

  -- Whether the process started and its socket appeared.
  abbrev pub has_socket : String → FirecrackerManager H → Bool
  has_socket id fm =
      let (r, h) = mc.os.spawn cfg.firecracker_bin (api_socket_of mc cfg id) fm.net.host in
      is_ok r && is_ok (wait_for_socket mc cfg (api_socket_of mc cfg id) 3000 h).0

  -- A launch that succeeds leaves the guests' addresses alone. One that fails gives the guest's
  -- address back if the process had started and its socket had appeared; if not, the address is
  -- lost.
  pub launch_returns :
      (id path : String) (tap : Option (String × Ip)) (fm : FirecrackerManager H)
      → ledger (launch mc cfg id path tap fm).1 ≡ (
          if is_ok (launch mc cfg id path tap fm).0
          then ledger fm
          else if has_socket id fm
          then returned cfg.network (guest_ip mc cfg tap) (ledger fm)
          else ledger fm)
  unfolding launch
  launch_returns id path none fm =
      grind (arith, ledger-configured, release_tap-next_ip, release_tap-released)
  launch_returns id path (some (t, ip)) fm =
      grind (arith, ledger-configured, release_tap-next_ip, release_tap-released)

  abbrev address_of : Option VmInstance → Option Ip
  address_of none = none
  address_of (some vm) = vm.guest_ip

  ledger-dismantle :
      (vm : VmInstance) (id : String) (fm : FirecrackerManager H)
      → ledger (dismantle mc cfg vm id fm).1 ≡ returned cfg.network vm.guest_ip (ledger fm)
  unfolding dismantle
  ledger-dismantle vm id fm = grind (arith, release_tap-next_ip, release_tap-released)

  -- KillSandbox gives the VM's address back, whatever else of it fails; of a sandbox that is not
  -- tracked, or whose VM has no address, it leaves the addresses alone.
  pub kill_sandbox_returns :
      (id : String) (fm : FirecrackerManager H)
      → ledger (kill_sandbox mc cfg id fm).1
        ≡ returned cfg.network (address_of (lookup id fm.running)) (ledger fm)
  unfolding kill_sandbox get
  kill_sandbox_returns id fm = grind (arith, ledger-dismantle)

  ledger-suspend :
      (vm : VmInstance) (dir : String) (fm : FirecrackerManager H)
      → ledger (suspend mc cfg vm dir fm).1 ≡ ledger fm
  unfolding suspend
  ledger-suspend vm dir fm = ground arith

  ledger-restore :
      (id ref : String) (fm : FirecrackerManager H)
      → ledger (restore mc cfg id ref fm).1 ≡ ledger fm
  unfolding restore
  ledger-restore id ref fm = ground arith

  restore-address :
      (id ref : String) (vm : VmInstance) (fm : FirecrackerManager H)
      → (restore mc cfg id ref fm).0 ≡ ok vm
      → vm.guest_ip ≡ none
  unfolding restore
  restore-address id ref vm fm h = ground arith

  tracked-address :
      (id : String) (r : Result Error VmInstance) (fm : FirecrackerManager H)
      → ((vm : VmInstance) → r ≡ ok vm → vm.guest_ip ≡ none)
      → (and_then r (track mc cfg id) fm).0 ≡ ok tt
      → address_of (lookup id (and_then r (track mc cfg id) fm).1.running) ≡ none
  tracked-address id (ok vm) fm h e =
      ap address_of (lookup-insert_self id vm fm.running) ∙ h vm refl
  tracked-address id (err x) fm h e = absurd (ground arith)

  ledger-resume :
      (id ref : String) (fm : FirecrackerManager H)
      → ledger (resume_sandbox mc cfg id ref fm).1 ≡ ledger fm
  unfolding resume_sandbox
  ledger-resume id ref fm = grind (arith, ledger-restore)

  -- A sandbox that was resumed has lost its address for good: where ResumeSandbox succeeds, killing
  -- the sandbox afterwards gives no address back, on any network.
  pub resume-kill_loses :
      (id ref : String) (fm : FirecrackerManager H)
      → (resume_sandbox mc cfg id ref fm).0 ≡ ok tt
      → ledger (kill_sandbox mc cfg id (resume_sandbox mc cfg id ref fm).1).1 ≡ ledger fm
  unfolding resume_sandbox
  resume-kill_loses id ref fm h =
      kill_sandbox_returns id (resume_sandbox mc cfg id ref fm).1
      ∙ ap (λ a. returned cfg.network a (ledger (resume_sandbox mc cfg id ref fm).1))
          (tracked-address id (restore mc cfg id ref fm).0 (restore mc cfg id ref fm).1
            (λ vm. restore-address id ref vm fm) h)
      ∙ returned-none cfg.network (ledger (resume_sandbox mc cfg id ref fm).1)
      ∙ ledger-resume id ref fm
