-- ===== src/Firecracker/Manager/Spec.antt =====
-- What a client of the manager can see of it: which sandboxes it tracks, and with which process.
-- The specification says what each call may do to that, by its outcome: the answer of IsRunning, and
-- of any other call whether it returned no error.
use cage.Common.{
  ℕ, String, List, [], ◌∷◌, Bool, true, false, Option, none, some, ◌≡◌, ◌≢◌, str_eq, if◌then◌else◌,
}

pub data Call : Type 0 where
  create : String → String → Call
  kill : String → Call
  pause : String → Call
  resume : String → String → Call
  clean : String → Call
  adopt : String → String → Call
  exit : String → ℕ → Call
  exec : String → List String → Call
  write : String → String → String → Call
  read : String → String → Call
  check : String → Call
  shell : String → Call

-- IsRunning and the end of a process have no error.
abbrev pub can_fail : Call → Bool
can_fail (check id) = false
can_fail (exit id p) = false
can_fail _ = true

-- The specification: the processes by sandbox, as a function.
abbrev pub Table : Type 0
Table = String → Option ℕ

abbrev pub update : Table → String → Option ℕ → Table
update t id p j = if str_eq id j then p else t j

-- What a call may do to the table, by its outcome.
pub data Step : Table → Call → Bool → Table → Type 0 where
  created :
      {t u : Table} (id slug : String) (p : ℕ)
      → ((j : String) → u j ≡ update t id (some p) j)
      → Step t (create id slug) true u
  resumed :
      {t u : Table} (id ref : String) (p : ℕ)
      → ((j : String) → u j ≡ update t id (some p) j)
      → Step t (resume id ref) true u
  killed :
      {t u : Table} (id : String) (p : ℕ) (b : Bool)
      → t id ≡ some p
      → ((j : String) → u j ≡ update t id none j)
      → Step t (kill id) b u
  paused :
      {t u : Table} (id : String) (p : ℕ)
      → t id ≡ some p
      → ((j : String) → u j ≡ update t id none j)
      → Step t (pause id) true u
  adopted :
      {t u : Table} (id placeholder : String) (p : ℕ)
      → t placeholder ≡ some p
      → ((j : String) → u j ≡ update (update t placeholder none) id (some p) j)
      → Step t (adopt id placeholder) true u
  gone :
      {t u : Table} (id : String) (p : ℕ)
      → t id ≡ some p
      → ((j : String) → u j ≡ update t id none j)
      → Step t (exit id p) true u
  stale :
      {t u : Table} (id : String) (p : ℕ)
      → t id ≢ some p
      → ((j : String) → u j ≡ t j)
      → Step t (exit id p) true u
  refused :
      {t u : Table} (c : Call) → can_fail c ≡ true → ((j : String) → u j ≡ t j) → Step t c false u
  seen :
      {t u : Table} (id : String) (p : ℕ)
      → t id ≡ some p
      → ((j : String) → u j ≡ t j)
      → Step t (check id) true u
  unseen :
      {t u : Table} (id : String)
      → t id ≡ none
      → ((j : String) → u j ≡ t j)
      → Step t (check id) false u
  entered : {t u : Table} (id : String) → ((j : String) → u j ≡ t j) → Step t (shell id) true u
  asked :
      {t u : Table} (id : String) (cmd : List String)
      → ((j : String) → u j ≡ t j)
      → Step t (exec id cmd) true u
  written :
      {t u : Table} (id path content : String)
      → ((j : String) → u j ≡ t j)
      → Step t (write id path content) true u
  fetched :
      {t u : Table} (id path : String) → ((j : String) → u j ≡ t j) → Step t (read id path) true u
  cleaned : {t u : Table} (ref : String) → ((j : String) → u j ≡ t j) → Step t (clean ref) true u

pub data Steps : Table → List Call → List Bool → Table → Type 0 where
  done : {t : Table} → Steps t [] [] t
  more :
      {t u v : Table} {c : Call} {b : Bool} {cs : List Call} {bs : List Bool}
      → Step t c b u
      → Steps u cs bs v
      → Steps t (c ∷ cs) (b ∷ bs) v
