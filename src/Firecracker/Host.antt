-- ===== src/Firecracker/Host.antt =====
-- internal/firecracker/interfaces.go, and what the package uses of the machine that it runs on.
-- `H` is the machine's state: its files, processes, sockets and clock.
use cage.Common.{ℕ, String, List, Bool, Option}
use cage.Common.Exec.{Exec, Error, Result}
use cage.Firecracker.Network.{Ip}

-- A value of a field of a JSON object.
pub data Json : Type 0 where
  text : String → Json
  number : ℕ → Json
  flag : Bool → Json

-- A request to the API of a firecracker process, the fields of its body in the order written.
pub record ApiRequest : Type 0 where
  pub method : String
  pub path : String
  pub body : List (String × Json)

pub record Reply : Type 0 where
  pub status_code : ℕ
  pub body : String

-- json.Marshal and json.Unmarshal at a type.
pub record Codec (A : Type 0) : Type 0 where
  pub marshal : A → String
  pub unmarshal : String → Result Error A

-- A process and a connection are known by a number, as a pointer is by its address. `now` and
-- `sleep` count milliseconds; `parse_cidr` is the address before the slash.
pub record Host (H : Type 0) : Type 0 where
  pub run : List String → Exec Error H (Unit {0})
  pub spawn : String → String → Exec Error H ℕ
  pub kill : ℕ → Exec Error H (Unit {0})
  pub exchange : String → ApiRequest → Exec Error H Reply
  pub stat : String → Exec Error H (Unit {0})
  pub open_file : String → Exec Error H (Unit {0})
  pub create : String → Exec Error H (Unit {0})
  pub copy : String → String → Exec Error H (Unit {0})
  pub mkdir_all : String → Exec Error H (Unit {0})
  pub remove : String → Exec Error H (Unit {0})
  pub remove_all : String → Exec Error H (Unit {0})
  pub read_file : String → Exec Error H String
  pub write_file : String → String → Exec Error H (Unit {0})
  pub is_not_exist : Error → Bool
  pub parse_cidr : String → Option Ip
  pub dial : String → Exec Error H ℕ
  pub set_deadline : ℕ → ℕ → Exec Error H (Unit {0})
  pub write : ℕ → String → Exec Error H (Unit {0})
  pub read_line : ℕ → Exec Error H String
  pub close : ℕ → H → H
  pub now : H → ℕ
  pub sleep : ℕ → H → H
