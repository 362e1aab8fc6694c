-- ===== src/Firecracker/Manager/Follows.antt =====
-- What one call does to the table of running VMs, put together from the steps of the call.
use cage.Common.{ℕ, String, Bool, true, false, Option, none, some, ◌≡◌, refl, ap, ◌∙◌, arith}
use cage.Common.Dict.{Dict, lookup, insert, remove, lookup-insert, lookup-remove}
use cage.Common.Exec.{Error, Result, ok, err, and_then, ◌>>=◌}
use cage.Firecracker.Manager.{FirecrackerConfig, FirecrackerManager, Machine, VmInstance, M}
use cage.Firecracker.Manager.Calls.{found}
use cage.Firecracker.Manager.Spec.{Call, Table, update, Step, can_fail, refused}

abbrev pub is_ok : {A : Type 0} → Result Error A → Bool
is_ok (ok _) = true
is_ok (err _) = false

abbrev pub process_of : Option VmInstance → Option ℕ
process_of none = none
process_of (some vm) = some vm.process

abbrev pub table_of : Dict VmInstance → Table
table_of m id = process_of (lookup id m)

abbrev pub table : {H : Type 0} → FirecrackerManager H → Table
table fm = table_of fm.running

pub table-insert :
    (id j : String) (vm : VmInstance) (m : Dict VmInstance)
    → table_of (insert id vm m) j ≡ update (table_of m) id (some vm.process) j
table-insert id j vm m = ground (arith, lookup-insert id j vm m)

pub table-remove :
    (id j : String) (m : Dict VmInstance) → table_of (remove id m) j ≡ update (table_of m) id none j
table-remove id j m = ground (arith, lookup-remove id j m)

module _ {H : Type 0} (mc : Machine H) (cfg : FirecrackerConfig) where
  abbrev pub Follows :
      {A : Type 0} → FirecrackerManager H → Call → Result Error A × FirecrackerManager H → Type 0
  Follows fm c p = Step (table fm) c (is_ok p.0) (table p.1)

  abbrev pub IsQuiet : Call → Type 0
  IsQuiet c = (t u : Table) → ((j : String) → u j ≡ t j) → Step t c true u

  unmoved :
      (fm fm' : FirecrackerManager H)
      → fm'.running ≡ fm.running
      → (j : String) → table fm' j ≡ table fm j
  unmoved fm fm' h j = ap (λ m. table_of m j) h

  pub quiet-Follows :
      {A : Type 0} (c : Call) (fm : FirecrackerManager H)
      (p : Result Error A × FirecrackerManager H)
      → can_fail c ≡ true
      → IsQuiet c
      → p.1.running ≡ fm.running
      → Follows fm c p
  quiet-Follows c fm (ok a, fm') f q h = q _ _ (unmoved fm fm' h)
  quiet-Follows c fm (err e, fm') f q h = refused c f (unmoved fm fm' h)

  pub and_then-Follows :
      {A B : Type 0} (c : Call) (r : Result Error A) (k : A → M mc cfg B)
      (fm fm' : FirecrackerManager H)
      → can_fail c ≡ true
      → fm'.running ≡ fm.running
      → ((a : A) → Follows fm c (k a fm'))
      → Follows fm c (and_then r k fm')
  and_then-Follows c (ok a) k fm fm' f h hk = hk a
  and_then-Follows c (err e) k fm fm' f h hk = refused c f (unmoved fm fm' h)

  pub found-Follows :
      {B : Type 0} (c : Call) (id : String) (o : Option VmInstance) (k : VmInstance → M mc cfg B)
      (fm : FirecrackerManager H)
      → can_fail c ≡ true
      → ((vm : VmInstance) → o ≡ some vm → Follows fm c (k vm fm))
      → Follows fm c ((found mc cfg id o >>= k) fm)
  found-Follows c id none k fm f h = refused c f λ _. refl
  found-Follows c id (some vm) k fm f h = h vm refl

  pub inserted :
      (id : String) (vm : VmInstance) (fm fm' : FirecrackerManager H)
      → fm'.running ≡ fm.running
      → (j : String)
      → table_of (insert id vm fm'.running) j ≡ update (table fm) id (some vm.process) j
  inserted id vm fm fm' h j =
      table-insert id j vm fm'.running ∙ ap (λ m. update (table_of m) id (some vm.process) j) h

  pub dropped :
      (id : String) (fm fm' : FirecrackerManager H)
      → fm'.running ≡ remove id fm.running
      → (j : String) → table fm' j ≡ update (table fm) id none j
  dropped id fm fm' h j = ap (λ m. table_of m j) h ∙ table-remove id j fm.running
