-- ===== src/Firecracker/Network.antt =====
-- internal/firecracker/network.go: tap devices and guest addresses. `H` is the state of the host,
-- which the ip and iptables commands change; `run` runs one.
pub mod Addresses
use Prim.Native.String.{len, slice}
use cage.Common.{
  ℕ, zero, suc, ◌+◌, ◌-◌, ◌%◌, ◌^◌, String, List, [], ◌∷◌, Bool, true, false, ltb, concat,
  if◌then◌else◌, ◌==◌, Option, none, some,
}
use cage.Common.Exec.{
  Exec, Error, Result, ok, err, msg, wrap, pure, fail, attempt, modify, or_wrap, ◌>>=◌, ◌>>◌,
}

pub record NetworkConfig : Type 0 where
  pub enabled : Bool
  pub bridge_name : String
  pub bridge_cidr : String
  pub subnet_cidr : String
  pub dns_server : String

-- An IPv4 address, byte by byte.
pub record Ip : Type 0 where
  pub a : ℕ
  pub b : ℕ
  pub c : ℕ
  pub d : ℕ

-- `released` is a stack; its top comes first.
pub record NetworkManager (H : Type 0) : Type 0 where
  pub host : H
  pub next_ip : ℕ
  pub released : List ℕ

-- The last byte is added to as a byte.
abbrev pub offset_ip : Ip → ℕ → Ip
offset_ip base offset = record base { d = (base.d + offset % 256) % 256 }

abbrev pub ip_offset : Ip → Ip → ℕ
ip_offset base ip = (ip.d + 256 - base.d) % 256

abbrev next_offset : ℕ → List ℕ → ℕ
next_offset next [] = next
next_offset next (offset ∷ released) = offset

abbrev taken : {H : Type 0} → List ℕ → NetworkManager H → NetworkManager H
taken [] nm = record nm { next_ip = suc nm.next_ip % 2 ^ 32 }
taken (offset ∷ released) nm = record nm { released = released }

module _ {H : Type 0} (base_ip : Ip) where
  unfoldable pub allocate_ip : NetworkManager H → Ip × NetworkManager H
  allocate_ip nm = (offset_ip base_ip (next_offset nm.next_ip nm.released), taken nm.released nm)

  unfoldable pub release_ip : Ip → NetworkManager H → NetworkManager H
  release_ip ip nm = record nm { released = ip_offset base_ip ip ∷ nm.released }

abbrev pub tap_device_name : String → String
tap_device_name id = concat "cg-" (if ltb 10 (len id) then slice id 0 10 else id)

module _ {H : Type 0} (run : List String → Exec Error H (Unit {0})) (cfg : NetworkConfig) where
  abbrev pub on_host : List String → Exec Error (NetworkManager H) (Unit {0})
  on_host cmd nm = let (r, h) = run cmd nm.host in (r, record nm { host = h })

  abbrev pub release_tap_device : String → Exec Error (NetworkManager H) (Result Error (Unit {0}))
  release_tap_device tap = attempt (on_host ("ip" ∷ "link" ∷ "delete" ∷ tap ∷ []))

  -- A command after whose failure the tap device is deleted again.
  abbrev or_undo : String → String → List String → Exec Error (NetworkManager H) (Unit {0})
  or_undo tap text cmd = do done ← attempt (on_host cmd); undone tap text done
    where
      undone : String → String → Result Error (Unit {0}) → Exec Error (NetworkManager H) (Unit {0})
      undone t s (ok _) = pure tt
      undone t s (err e) = release_tap_device t >> fail (wrap s e)

  module _ (base_ip : Ip) where
    unfoldable pub allocate_tap : String → Exec Error (NetworkManager H) (String × Ip)
    allocate_tap id =
        let tap = tap_device_name id in
        if cfg.enabled
        then (do
          or_wrap "failed to create tap device"
              (on_host ("ip" ∷ "tuntap" ∷ "add" ∷ "dev" ∷ tap ∷ "mode" ∷ "tap" ∷ []))
          or_undo tap "failed to attach tap to bridge"
              ("ip" ∷ "link" ∷ "set" ∷ tap ∷ "master" ∷ cfg.bridge_name ∷ [])
          or_undo tap "failed to bring tap device up" ("ip" ∷ "link" ∷ "set" ∷ tap ∷ "up" ∷ [])
          (λ nm. let (ip, nm') = allocate_ip base_ip nm in (ok (tap, ip), nm')))
        else fail (msg "networking is not enabled")

    unfoldable pub release_tap : String → Ip → NetworkManager H → NetworkManager H
    release_tap id ip nm =
        if cfg.enabled
        then release_ip base_ip ip (release_tap_device (tap_device_name id) nm).1
        else nm

  unfoldable pub setup_bridge : Exec Error H (Unit {0})
  setup_bridge = do
    shown ← attempt (run ("ip" ∷ "link" ∷ "show" ∷ cfg.bridge_name ∷ []))
    added shown
    run ("ip" ∷ "link" ∷ "set" ∷ cfg.bridge_name ∷ "up" ∷ [])
    where
      added : Result Error (Unit {0}) → Exec Error H (Unit {0})
      added (ok _) = pure tt
      added (err e) = do
        run ("ip" ∷ "link" ∷ "add" ∷ "name" ∷ cfg.bridge_name ∷ "type" ∷ "bridge" ∷ [])
        run ("ip" ∷ "addr" ∷ "add" ∷ cfg.bridge_cidr ∷ "dev" ∷ cfg.bridge_name ∷ [])

  abbrev nat_rule : String → List String
  nat_rule flag =
      "iptables" ∷ "-t" ∷ "nat" ∷ flag ∷ "POSTROUTING" ∷ "-s" ∷ cfg.subnet_cidr ∷ "-j"
      ∷ "MASQUERADE" ∷ []

  unfoldable pub setup_nat : Exec Error H (Unit {0})
  setup_nat = do
    or_wrap "failed to enable ip_forward"
        (run ("sh" ∷ "-c" ∷ "echo 1 > /proc/sys/net/ipv4/ip_forward" ∷ []))
    exists ← attempt (run (nat_rule "-C"))
    ensured exists
    where
      ensured : Result Error (Unit {0}) → Exec Error H (Unit {0})
      ensured (ok _) = pure tt
      ensured (err e) = run (nat_rule "-A")

  -- The address with the bits of its host part cleared, for the mask of its class.
  abbrev pub masked : Ip → Ip
  masked ip =
      if ltb ip.a 128
      then record ip { b = 0; c = 0; d = 0 }
      else if ltb ip.a 192
      then record ip { c = 0; d = 0 }
      else record ip { d = 0 }

  abbrev set_up : Option Ip → Exec Error H Ip
  set_up none = fail (msg "invalid bridge CIDR")
  set_up (some ip) = do
    or_wrap "failed to set up bridge" setup_bridge
    or_wrap "failed to set up NAT" setup_nat
    pure (masked ip)

  abbrev manager_of : H → ℕ → NetworkManager H
  manager_of h next = record { host = h; next_ip = next; released = [] }

  -- NewNetworkManager for a user: its base address, where it is enabled, and the manager.
  unfoldable pub new_network_manager :
      (String → Option Ip) → ℕ → H → Result Error (Option Ip) × NetworkManager H
  new_network_manager parse_cidr uid h =
      if cfg.enabled
      then if uid == 0
        then (do base ← lifted (set_up (parse_cidr cfg.bridge_cidr)); pure (some base))
            (manager_of h 2)
        else (
          err (
              msg
                "firecracker networking requires root privilages (CAP_NET_ADMIN) - run the server as root, or set FIRECRACKER_NETWORK_ENABLED=false"),
          manager_of h 0,
        )
      else (ok none, manager_of h 0)
    where
      lifted : Exec Error H Ip → Exec Error (NetworkManager H) Ip
      lifted m nm = let (r, h) = m nm.host in (r, record nm { host = h })
