-- ===== src/Api/Pausing/Consistency/Actions.antt =====
-- The handlers of one sandbox keep the pause references consistent.
use cage.Common.{
  String, List, ◌≡◌, ◌≢◌, refl, ap, Option, none, Bool, true, false, arith, str_eq, if◌then◌else◌,
}
use cage.Common.Exec.{Result, ok, err}
use cage.Backend.{Pausable, as_pausable, as_image_cleaner, as_warm_adopter}
use cage.Store
use cage.Store.{
  Sandbox, Template, SandboxStatus, running, stopped, paused, Db, row_of, upsert, delete_row,
  answer,
}
use cage.World.{World}
use cage.Api.{Api, Response}
use cage.Api.Sandboxes.{
  create_sandbox, delete_sandbox, get_sandbox, template_or_base, resolve, from_pool, create_cold,
}
use cage.Api.Sandboxes.Creation.{warm_start-Untouched, resolve_rows}
use cage.Api.Commands.{WriteFileRequest, is_empty, exec_command, write_file, read_file}
use cage.Api.Commands.Guards.{Request, gets, deletes, pauses, resumes, execs, writes, reads, handle}
use cage.Api.Pausing.{pause_sandbox, resume_sandbox, no_reference, not_implemented}
use cage.Api.Pausing.Consistency.{
  IsConsistent, has_reference, Keeps, Answers, Referenced, Any, bind, load-Keeps, require-Keeps,
  or_else-Keeps, backend-Keeps, db-Keeps, time-Keeps, uuid-Keeps, pure-Keeps, cleanup-Keeps,
  other_status, save-AllConsistent, delete-AllConsistent,
}

module _ {B : Type 0} (api : Api B) where
  resolve-Keeps : (name : String) → Keeps Any (resolve api name)
  unfolding resolve Store.get_template_by_slug
  resolve-Keeps name = record {
    run = λ w h. (rw (resolve_rows api name w) h, resolved w (resolve api name w).0 refl);
  }
    where
      resolved :
          (w : World B) (r : Result Response (Template × String))
          → (resolve api name w).0 ≡ r
          → Answers Any r
      resolved w (ok x) e = tt
      resolved w (err r) e = λ f. ground arith

  from_pool-Keeps : (id slug : String) → Keeps Any (from_pool api id slug)
  unfolding from_pool
  from_pool-Keeps id slug = record {
    run = λ w h.
        (rw (warm_start-Untouched api api.has_pool (as_warm_adopter api.sb) id slug w).0 h, tt);
  }

  cold-Keeps : (b : Bool) (id ref : String) → Keeps Any (create_cold api b id ref)
  cold-Keeps true id ref = record { run = λ w h. (h, tt) }
  cold-Keeps false id ref = backend-Keeps (api.sb.create_sandbox id ref)

  pub create_sandbox-Keeps : (template : String) → Keeps Referenced (create_sandbox api template)
  unfolding create_sandbox
  create_sandbox-Keeps template =
      bind _ _ _ _ (resolve-Keeps (template_or_base template))
        λ ((tmpl, ref) : Template × String) t. bind _ _ _ _ uuid-Keeps λ id t.
          bind _ _ _ _ (from_pool-Keeps id tmpl.slug) λ warm t.
            bind _ _ _ _ (cold-Keeps warm id ref) λ t u. bind _ _ _ _ time-Keeps λ created t.
              bind _ _ _ _ time-Keeps λ now t.
                bind _ _ _ _ (db-Keeps (Store.save _) (λ db. save-AllConsistent _ db refl))
                  λ t u. pure-Keeps _ (other_status _ refl)

module _ {B : Type 0} (api : Api B) (uuid_parse : String → Bool) (id : String) where
  pause_sandbox-Keeps : Keeps Referenced (pause_sandbox api uuid_parse id)
  unfolding pause_sandbox
  pause_sandbox-Keeps = bind IsConsistent _ _ _ (load-Keeps uuid_parse id) λ row c.
      bind _ _ _ _ (require-Keeps (Store.is_running row.status) _ (other_status _ refl)) λ t active.
        bind _ _ _ _ (or_else-Keeps (as_pausable api.sb) not_implemented (λ e. other_status _ refl))
          λ (pausable : Pausable B) e.
            bind _ _ _ _ (backend-Keeps (pausable.pause_sandbox row.id)) λ ref t.
              bind _ _ _ _ time-Keeps λ now t.
                bind _ _ _ _ (db-Keeps (Store.save _) (λ db. save-AllConsistent _ db refl))
                  λ t u. pure-Keeps _ (other_status _ refl)

  has_some :
      (row : Sandbox)
      → IsConsistent row
      → Store.is_paused row.status ≡ true
      → row.paused_image_id ≢ none
  has_some row c p e = cc (ap has_reference e, c, p)

  resume_sandbox-Keeps : Keeps Referenced (resume_sandbox api uuid_parse id)
  unfolding resume_sandbox
  resume_sandbox-Keeps = bind IsConsistent _ _ _ (load-Keeps uuid_parse id) λ row c.
      bind _ _ _ _ (require-Keeps (Store.is_paused row.status) _ (other_status _ refl)) λ t asleep.
        bind _ _ _ _
          (or_else-Keeps row.paused_image_id no_reference (λ e. absurd (has_some row c asleep e)))
          λ (ref : String) e.
            bind _ _ _ _
              (or_else-Keeps (as_pausable api.sb) not_implemented (λ e. other_status _ refl))
              λ (pausable : Pausable B) e.
                bind _ _ _ _ (backend-Keeps (pausable.resume_sandbox row.id ref)) λ t u.
                  bind _ _ _ _ time-Keeps λ now t.
                    bind _ _ _ _ (db-Keeps (Store.save _) (λ db. save-AllConsistent _ db refl))
                      λ t u.
                        bind _ _ _ _ (cleanup-Keeps (as_image_cleaner api.sb) ref)
                          λ t u. pure-Keeps _ (other_status _ refl)

  delete_sandbox-Keeps : Keeps Referenced (delete_sandbox api uuid_parse id)
  unfolding delete_sandbox
  delete_sandbox-Keeps = bind IsConsistent _ _ _ (load-Keeps uuid_parse id) λ row c.
      bind _ _ _ _ (backend-Keeps (api.sb.kill_sandbox row.id)) λ t u.
        bind _ _ _ _ (db-Keeps (Store.delete id) (delete-AllConsistent id))
          λ t u. pure-Keeps _ (other_status _ refl)

  get_sandbox-Keeps : Keeps Referenced (get_sandbox api uuid_parse id)
  unfolding get_sandbox
  get_sandbox-Keeps =
      bind IsConsistent _ _ _ (load-Keeps uuid_parse id) λ row c. pure-Keeps _ (other_status _ refl)

  exec_command-Keeps :
      (cmd : Option (List String)) → Keeps Referenced (exec_command api uuid_parse id cmd)
  unfolding exec_command
  exec_command-Keeps body = bind IsConsistent _ _ _ (load-Keeps uuid_parse id) λ row c.
      bind _ _ _ _ (require-Keeps (Store.is_running row.status) _ (other_status _ refl)) λ t active.
        bind _ _ _ _ (or_else-Keeps body _ (λ e. other_status _ refl)) λ (cmd : List String) e.
          bind _ _ _ _
            (require-Keeps (if is_empty cmd then false else true) _ (other_status _ refl))
            λ t u.
              bind _ _ _ _ (backend-Keeps (api.sb.exec_command row.id cmd))
                λ out u. pure-Keeps _ (other_status _ refl)

  write_file-Keeps :
      (body : Option WriteFileRequest) → Keeps Referenced (write_file api uuid_parse id body)
  unfolding write_file
  write_file-Keeps body = bind IsConsistent _ _ _ (load-Keeps uuid_parse id) λ row c.
      bind _ _ _ _ (require-Keeps (Store.is_running row.status) _ (other_status _ refl)) λ t active.
        bind _ _ _ _ (or_else-Keeps body _ (λ e. other_status _ refl)) λ (req : WriteFileRequest) e.
          bind _ _ _ _
            (require-Keeps (if str_eq req.path "" then false else true) _ (other_status _ refl))
            λ t u.
              bind _ _ _ _ (backend-Keeps (api.sb.write_file row.id req.path req.content))
                λ out u. pure-Keeps _ (other_status _ refl)

  read_file-Keeps : (path : String) → Keeps Referenced (read_file api uuid_parse id path)
  unfolding read_file
  read_file-Keeps path = bind IsConsistent _ _ _ (load-Keeps uuid_parse id) λ row c.
      bind _ _ _ _ (require-Keeps (Store.is_running row.status) _ (other_status _ refl)) λ t active.
        bind _ _ _ _
          (require-Keeps (if str_eq path "" then false else true) _ (other_status _ refl))
          λ t u.
            bind _ _ _ _ (backend-Keeps (api.sb.read_file row.id path))
              λ read u. pure-Keeps _ (other_status _ refl)

  pub handle-Keeps : (req : Request) → Keeps Referenced (handle api uuid_parse id req)
  handle-Keeps gets = get_sandbox-Keeps
  handle-Keeps deletes = delete_sandbox-Keeps
  handle-Keeps pauses = pause_sandbox-Keeps
  handle-Keeps resumes = resume_sandbox-Keeps
  handle-Keeps (execs cmd) = exec_command-Keeps cmd
  handle-Keeps (writes body) = write_file-Keeps body
  handle-Keeps (reads path) = read_file-Keeps path
