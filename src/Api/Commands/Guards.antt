-- ===== src/Api/Commands/Guards.antt =====
-- What the handlers of one sandbox answer before they reach the backend.
use cage.Common.{suc, String, List, ◌≡◌, Option, none, some, Bool, true, false}
use cage.Common.Exec.{ok, err}
use cage.Store
use cage.Store.{Sandbox, SandboxStatus, running, paused, stopped, row_of}
use cage.World.{World}
use cage.Api.{Api, Response, respond, not_allowed, not_found, serve, load, Handler}
use cage.Api.Commands.{WriteFileRequest, exec_command, write_file, read_file}
use cage.Api.Sandboxes.{get_sandbox, delete_sandbox}
use cage.Api.Pausing.{pause_sandbox, resume_sandbox}

-- The only trace of a Get.
abbrev pub counted : {B : Type 0} → World B → World B
counted w = record w { db = record w.db { statements = suc w.db.statements } }

module _ {B : Type 0} (uuid_parse : String → Bool) (id : String) (w : World B) where
  pub load_malformed : uuid_parse id ≡ false → load uuid_parse id w ≡ (err not_found, w)
  unfolding load
  load_malformed bad = rw bad

  pub load_missing :
      uuid_parse id ≡ true
      → w.db.outage w.db.statements ≡ none
      → row_of id w.db.sandboxes ≡ none
      → load uuid_parse id w ≡ (err not_found, counted w)
  unfolding load Store.get
  load_missing good up missing = rw (good, up, missing, Store.answer)

  pub load_found :
      (row : Sandbox)
      → uuid_parse id ≡ true
      → w.db.outage w.db.statements ≡ none
      → row_of id w.db.sandboxes ≡ some row
      → load uuid_parse id w ≡ (ok row, counted w)
  unfolding load Store.get
  load_found row good up here = rw (good, up, here, Store.answer)

-- A handler of one sandbox, of those in handlers.go.
pub data Request : Type 0 where
  gets deletes pauses resumes : Request
  execs : Option (List String) → Request
  writes : Option WriteFileRequest → Request
  reads : String → Request

module _ {B : Type 0} (api : Api B) (uuid_parse : String → Bool) (id : String) where
  abbrev pub handle : Request → Handler B Response
  handle gets = get_sandbox api uuid_parse id
  handle deletes = delete_sandbox api uuid_parse id
  handle pauses = pause_sandbox api uuid_parse id
  handle resumes = resume_sandbox api uuid_parse id
  handle (execs cmd) = exec_command api uuid_parse id cmd
  handle (writes body) = write_file api uuid_parse id body
  handle (reads path) = read_file api uuid_parse id path

  -- The load comes first in every handler.
  load_first :
      (req : Request) (r : Response) (w w' : World B)
      → load uuid_parse id w ≡ (err r, w')
      → serve (handle req) w ≡ (r, w')
  unfolding get_sandbox delete_sandbox pause_sandbox resume_sandbox exec_command write_file
      read_file
  load_first gets r w w' e = rw e
  load_first deletes r w w' e = rw e
  load_first pauses r w w' e = rw e
  load_first resumes r w w' e = rw e
  load_first (execs cmd) r w w' e = rw e
  load_first (writes body) r w w' e = rw e
  load_first (reads path) r w w' e = rw e

  -- Every handler of one sandbox answers 404 to an ID that is no UUID, and then has touched
  -- nothing, not even the database.
  pub handle_malformed :
      (req : Request) (w : World B) → uuid_parse id ≡ false → serve (handle req) w ≡ (not_found, w)
  handle_malformed req w bad = load_first req not_found w w (load_malformed uuid_parse id w bad)

  -- Every handler of one sandbox answers 404 to a UUID with no record, and then has only queried
  -- the database.
  pub handle_missing :
      (req : Request) (w : World B)
      → uuid_parse id ≡ true
      → w.db.outage w.db.statements ≡ none
      → row_of id w.db.sandboxes ≡ none
      → serve (handle req) w ≡ (not_found, counted w)
  handle_missing req w good up missing =
      load_first req not_found w (counted w) (load_missing uuid_parse id w good up missing)

  -- The status that a handler demands of the record, and the text of its refusal.
  abbrev pub admits : Request → SandboxStatus → Bool
  admits gets s = true
  admits deletes s = true
  admits pauses s = Store.is_running s
  admits resumes s = Store.is_paused s
  admits (execs cmd) s = Store.is_running s
  admits (writes body) s = Store.is_running s
  admits (reads path) s = Store.is_running s

  abbrev pub refusal : Request → String
  refusal pauses = "cannot pause sandbox in status %q"
  refusal resumes = "cannot resume sandbox in status %q"
  refusal _ = "sandbox is %q, not running"

  -- Exec, files and pause are answered only for a sandbox recorded as running, and resume only for
  -- one recorded as paused: otherwise the answer is 409 with the status, and the request has only
  -- queried the database.
  pub handle_conflict :
      (req : Request) (row : Sandbox) (w : World B)
      → uuid_parse id ≡ true
      → w.db.outage w.db.statements ≡ none
      → row_of id w.db.sandboxes ≡ some row
      → admits req row.status ≡ false
      → serve (handle req) w ≡ (respond 409 (not_allowed (refusal req) row.status), counted w)
  unfolding pause_sandbox resume_sandbox exec_command write_file read_file
  handle_conflict gets row w good up here barred = cc
  handle_conflict deletes row w good up here barred = cc
  handle_conflict pauses row w good up here barred =
      rw (load_found uuid_parse id w row good up here, barred)
  handle_conflict resumes row w good up here barred =
      rw (load_found uuid_parse id w row good up here, barred)
  handle_conflict (execs cmd) row w good up here barred =
      rw (load_found uuid_parse id w row good up here, barred)
  handle_conflict (writes body) row w good up here barred =
      rw (load_found uuid_parse id w row good up here, barred)
  handle_conflict (reads path) row w good up here barred =
      rw (load_found uuid_parse id w row good up here, barred)
