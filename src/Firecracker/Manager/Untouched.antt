-- ===== src/Firecracker/Manager/Untouched.antt =====
-- The long actions leave the table of running VMs alone.
use cage.Common.{List, arith, String, Option, none, some, ◌≡◌, refl}
use cage.Common.Dict.{Dict}
use cage.Firecracker.Manager.{FirecrackerConfig, FirecrackerManager, Machine, released, VmInstance}
use cage.Firecracker.Manager.Boot.{allocated, configured, resolving, launch, boot}
use cage.Firecracker.Manager.Calls.{dismantle, get, exec_command, write_file, read_file, open_shell}
use cage.Firecracker.Manager.Pauses.{suspend, restore, remove_image}
use cage.Firecracker.Network.{Ip, NetworkConfig}

abbrev pub running_of : {H : Type 0} → FirecrackerManager H → Dict VmInstance
running_of fm = fm.running

module _ {H : Type 0} (mc : Machine H) (cfg : FirecrackerConfig) where
  allocated-Keeps :
      (net : Option (NetworkConfig × Ip)) (id : String)
      → (s : FirecrackerManager H) → running_of (allocated mc cfg net id s).1 ≡ running_of s
  unfolding allocated
  allocated-Keeps none id s = refl
  allocated-Keeps (some (nc, base)) id s = ground arith

  configured-Keeps :
      (id path : String) (tap : Option (String × Ip))
      → (s : FirecrackerManager H) → running_of (configured mc cfg id path tap s).1 ≡ running_of s
  unfolding configured
  configured-Keeps id path none s = ground arith
  configured-Keeps id path (some (t, ip)) s = ground arith

  resolving-Keeps :
      (id : String) (net : Option (NetworkConfig × Ip)) (tap : Option (String × Ip))
      → (s : FirecrackerManager H) → running_of (resolving mc cfg id net tap s).1 ≡ running_of s
  unfolding resolving
  resolving-Keeps id none tap s = refl
  resolving-Keeps id (some (nc, base)) none s = refl
  resolving-Keeps id (some (nc, base)) (some (t, ip)) s = ground arith

  released-Keeps :
      (net : Option (NetworkConfig × Ip)) (id : String) (ip : Option Ip)
      → (s : FirecrackerManager H) → running_of (released mc cfg net id ip s).1 ≡ running_of s
  released-Keeps none id ip s = refl
  released-Keeps (some (nc, base)) id none s = refl
  released-Keeps (some (nc, base)) id (some ip) s = refl

  pub suspend-Keeps :
      (vm : VmInstance) (dir : String)
      → (s : FirecrackerManager H) → running_of (suspend mc cfg vm dir s).1 ≡ running_of s
  unfolding suspend
  suspend-Keeps vm dir s = ground arith

  pub restore-Keeps :
      (id ref : String)
      → (s : FirecrackerManager H) → running_of (restore mc cfg id ref s).1 ≡ running_of s
  unfolding restore
  restore-Keeps id ref s = ground arith

  pub dismantle-Keeps :
      (vm : VmInstance) (id : String)
      → (s : FirecrackerManager H) → running_of (dismantle mc cfg vm id s).1 ≡ running_of s
  unfolding dismantle
  dismantle-Keeps vm id s = ground arith

  launch-Keeps :
      (id path : String) (tap : Option (String × Ip))
      → (s : FirecrackerManager H) → running_of (launch mc cfg id path tap s).1 ≡ running_of s
  unfolding launch
  launch-Keeps id path tap s = grind (arith, configured-Keeps)

  pub boot-Keeps :
      (id slug : String)
      → (s : FirecrackerManager H) → running_of (boot mc cfg id slug s).1 ≡ running_of s
  unfolding boot
  boot-Keeps id slug s = grind (arith, allocated-Keeps, launch-Keeps, resolving-Keeps)

  get-Keeps :
      (id : String) (s : FirecrackerManager H) → running_of (get mc cfg id s).1 ≡ running_of s
  unfolding get
  get-Keeps id s = ground arith

  pub exec-Keeps :
      (id : String) (cmd : List String) (s : FirecrackerManager H)
      → running_of (exec_command mc cfg id cmd s).1 ≡ running_of s
  unfolding exec_command
  exec-Keeps id cmd s = grind (arith, get-Keeps)

  pub write-Keeps :
      (id path content : String) (s : FirecrackerManager H)
      → running_of (write_file mc cfg id path content s).1 ≡ running_of s
  unfolding write_file
  write-Keeps id path content s = grind (arith, get-Keeps)

  pub read-Keeps :
      (id path : String) (s : FirecrackerManager H)
      → running_of (read_file mc cfg id path s).1 ≡ running_of s
  unfolding read_file
  read-Keeps id path s = grind (arith, get-Keeps)

  pub open_shell-Keeps :
      (id : String) (s : FirecrackerManager H)
      → running_of (open_shell mc cfg id s).1 ≡ running_of s
  unfolding open_shell
  open_shell-Keeps id s = grind (arith, get-Keeps)

  pub remove_image-Keeps :
      (ref : String) (s : FirecrackerManager H)
      → running_of (remove_image mc cfg ref s).1 ≡ running_of s
  unfolding remove_image
  remove_image-Keeps ref s = ground arith
