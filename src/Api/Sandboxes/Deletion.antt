-- ===== src/Api/Sandboxes/Deletion.antt =====
-- What DeleteSandbox does to the record and to the backend.
use cage.Common.{suc, String, ◌≡◌, none, some, Bool, true, false, arith, str_eq, if◌then◌else◌}
use cage.Common.Exec.{Error, Result, ok, err}
use cage.Store
use cage.Store.{Sandbox, Db, row_of}
use cage.Store.Rows.{row_of-delete_row, row_of-id}
use cage.World.{World}
use cage.Api.{Api, Response, respond, empty, failure, serve}
use cage.Api.Sandboxes.{delete_sandbox}
use cage.Api.Commands.Guards.{load_found}

-- The answer to a kill, and whether the record is deleted.
abbrev pub deletion_answer : Result Error (Unit {0}) → Response
deletion_answer (ok _) = respond 204 empty
deletion_answer (err e) = respond 500 (failure e)

abbrev pub is_killed : Result Error (Unit {0}) → Bool
is_killed (ok _) = true
is_killed (err e) = false

module _ {B : Type 0} (api : Api B) (uuid_parse : String → Bool) where
  -- Where the database answers, deleting a sandbox with a record kills it first: the answer is 204
  -- and its row, and no other, is gone if the kill succeeded; otherwise the answer is 500 with the
  -- backend's error and every row is kept.
  pub delete_sandbox-row_of :
      (id j : String) (row : Sandbox) (w : World B)
      → uuid_parse id ≡ true
      → w.db.outage w.db.statements ≡ none
      → w.db.outage (suc w.db.statements) ≡ none
      → row_of id w.db.sandboxes ≡ some row
      → let killed = (api.sb.kill_sandbox id w.backend).0 in
        let (r, w') = serve (delete_sandbox api uuid_parse id) w in
        (r ≡ deletion_answer killed)
        × (w'.backend ≡ (api.sb.kill_sandbox id w.backend).1)
        × (row_of j w'.db.sandboxes ≡ (
            if is_killed killed
            then (if str_eq id j then none else row_of j w.db.sandboxes)
            else row_of j w.db.sandboxes))
  unfolding delete_sandbox Store.delete
  delete_sandbox-row_of id j row w good up up' here =
      rw (load_found uuid_parse id w row good up here, row_of-id id w.db.sandboxes row here)
        (ground (arith, row_of-delete_row j id w.db.sandboxes))
