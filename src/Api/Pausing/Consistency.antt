-- ===== src/Api/Pausing/Consistency.antt =====
-- The pause reference of a record against its status, and what an action keeps of it.
pub mod Actions
pub mod Handlers
use cage.Common.{
  ℕ, suc, String, List, [], ◌∷◌, ◌≡◌, ◌≢◌, refl, ap, Option, none, some, Option-cases, Bool, true,
  false, Bool-cases, inl, inr, arith, All, All-keep, keep, str_eq, ◌==◌, if◌then◌else◌,
}
use cage.Common.Exec.{Exec, Error, Result, ok, err, pure, and_then, from_result, ◌>>=◌}
use cage.Backend.{
  SandboxBackend, Pausable, ImageCleaner, WarmAdopter, as_pausable, as_image_cleaner,
  as_warm_adopter,
}
use cage.Store
use cage.Store.{
  Sandbox, Template, SandboxStatus, running, stopped, paused, Db, row_of, upsert, delete_row,
  answer,
}
use cage.Store.Rows.{All-upsert, All-row_of}
use cage.World.{World, on_backend, on_db, time_now, new_uuid}
use cage.Api.{Api, Response, Handler, serve, load, internal, or_500, or_else, require}
use cage.Api.Sandboxes.{
  create_sandbox, delete_sandbox, get_sandbox, template_or_base, resolve, from_pool, create_cold,
}
use cage.Api.Sandboxes.Creation.{warm_start-Untouched, resolve_rows}
use cage.Api.Commands.{WriteFileRequest, is_empty, exec_command, write_file, read_file}
use cage.Api.Commands.Guards.{Request, gets, deletes, pauses, resumes, execs, writes, reads, handle}
use cage.Api.Pausing.{pause_sandbox, resume_sandbox, no_reference, not_implemented, start_cleanup}

abbrev pub has_reference : Option String → Bool
has_reference none = false
has_reference (some ref) = true

-- A record has a pause reference exactly if it is paused.
abbrev pub IsConsistent : Sandbox → Type 0
IsConsistent row = has_reference row.paused_image_id ≡ Store.is_paused row.status

abbrev pub AllConsistent : {B : Type 0} → World B → Type 0
AllConsistent w = All IsConsistent w.db.sandboxes

-- What the load leaves, and the row that it finds.
load-keeps :
    {B : Type 0} (uuid_parse : String → Bool) (id : String) (w : World B)
    → (load uuid_parse id w).1.db.sandboxes ≡ w.db.sandboxes
unfolding load Store.get
load-keeps uuid_parse id w = ground arith

load-row :
    {B : Type 0} (uuid_parse : String → Bool) (id : String) (row : Sandbox) (w : World B)
    → (load uuid_parse id w).0 ≡ ok row
    → row_of id w.db.sandboxes ≡ some row
unfolding load Store.get
load-row uuid_parse id row w e = ground arith

load_error :
    {B : Type 0} (uuid_parse : String → Bool) (id : String) (r : Response) (w : World B)
    → (load uuid_parse id w).0 ≡ err r
    → r ≢ no_reference
unfolding load Store.get
load_error uuid_parse id r w e f = ground arith

load-IsConsistent :
    {B : Type 0} (uuid_parse : String → Bool) (id : String) (row : Sandbox) (w : World B)
    → AllConsistent w
    → (load uuid_parse id w).0 ≡ ok row
    → IsConsistent row
load-IsConsistent uuid_parse id row w h e =
    All-row_of IsConsistent id w.db.sandboxes row h (load-row uuid_parse id row w e)

save-AllConsistent :
    (row : Sandbox) (db : Db)
    → IsConsistent row
    → All IsConsistent db.sandboxes
    → All IsConsistent (Store.save row db).1.sandboxes
unfolding Store.save
save-AllConsistent row db c h = elim (Option-cases (db.outage db.statements)) [
  | inl up ↦ rw (up, answer) (All-upsert IsConsistent row db.sandboxes c h)
  | inr (e, down) ↦ rw (down, answer) h
]

delete-AllConsistent :
    (id : String) (db : Db)
    → All IsConsistent db.sandboxes
    → All IsConsistent (Store.delete id db).1.sandboxes
unfolding Store.delete delete_row
delete-AllConsistent id db h = elim (Option-cases (db.outage db.statements)) [
  | inl up ↦
      rw (up, answer)
        (All-keep IsConsistent (λ row. if str_eq row.id id then false else true) db.sandboxes h)
  | inr (e, down) ↦ rw (down, answer) h
]

-- What a handler has when it goes on, and the response that it has written when it returns.
abbrev pub Answers : {A : Type 0} → (A → Type 0) → Result Response A → Type 0
Answers Q (ok a) = Q a
Answers Q (err r) = r ≢ no_reference

abbrev pub Referenced : Response → Type 0
Referenced r = r ≢ no_reference

abbrev Any : {A : Type 0} → A → Type 0
Any a = Unit

internal-Answers : {A : Type 0} (r : Result Error A) → Answers Any (internal r)
internal-Answers (ok a) = tt
internal-Answers (err e) = λ e'. cc

-- Any response of another status.
pub other_status : (r : Response) → (r.status == 500) ≡ false → r ≢ no_reference
other_status r q e = cc (q, ap (λ (x : Response). x.status == 500) e)

module _ {B : Type 0} where
  -- From a consistent table the action leaves a consistent one.
  pub record Keeps {A : Type 0} (Q : A → Type 0) (m : Handler B A) : Type 0 where
    pub run : (w : World B) → AllConsistent w → AllConsistent (m w).1 × Answers Q (m w).0

  after :
      {A C : Type 0} (Q : A → Type 0) (R : C → Type 0) (f : A → Handler B C) (r : Result Response A)
      (w : World B)
      → ((a : A) → Q a → Keeps R (f a))
      → AllConsistent w
      → Answers Q r
      → AllConsistent (and_then r f w).1 × Answers R (and_then r f w).0
  after Q R f (ok a) w k h q = (k a q).run w h
  after Q R f (err e) w k h q = (h, q)

  bind :
      {A C : Type 0} (Q : A → Type 0) (R : C → Type 0) (m : Handler B A) (f : A → Handler B C)
      → Keeps Q m
      → ((a : A) → Q a → Keeps R (f a))
      → Keeps R (m >>= f)
  bind Q R m f keeps k = record {
    run = λ w h. let (h', q) = keeps.run w h in after Q R f (m w).0 (m w).1 k h' q;
  }

  -- A backend call, and a query that does not write.
  backend-Keeps : {A : Type 0} (m : Exec Error B A) → Keeps Any (or_500 (on_backend m))
  backend-Keeps m = record { run = λ w h. (h, internal-Answers (m w.backend).0) }

  db-Keeps :
      {A : Type 0} (m : Exec Error Db A)
      → ((db : Db) → All IsConsistent db.sandboxes → All IsConsistent (m db).1.sandboxes)
      → Keeps Any (or_500 (on_db m))
  db-Keeps m keeps = record { run = λ w h. (keeps w.db h, internal-Answers (m w.db).0) }

  time-Keeps : Keeps Any (time_now {E = Response})
  unfolding time_now
  time-Keeps = record { run = λ w h. (h, tt) }

  pure-Keeps : (r : Response) → r ≢ no_reference → Keeps (Referenced) (pure r)
  pure-Keeps r q = record { run = λ w h. (h, q) }

  require-Keeps : (b : Bool) (r : Response) → r ≢ no_reference → Keeps (λ t. b ≡ true) (require b r)
  require-Keeps true r q = record { run = λ w h. (h, refl) }
  require-Keeps false r q = record { run = λ w h. (h, q) }

  or_else-Keeps :
      {A : Type 0} (o : Option A) (r : Response)
      → (o ≡ none → r ≢ no_reference)
      → Keeps (λ a. o ≡ some a) (or_else o r)
  or_else-Keeps none r q = record { run = λ w h. (h, q refl) }
  or_else-Keeps (some a) r q = record { run = λ w h. (h, refl) }

  cleanup-Keeps : (o : Option (ImageCleaner B)) (ref : String) → Keeps Any (start_cleanup o ref)
  unfolding start_cleanup
  cleanup-Keeps none ref = record { run = λ w h. (h, tt) }
  cleanup-Keeps (some cleaner) ref = record { run = λ w h. (h, tt) }

  uuid-Keeps : Keeps Any (new_uuid {E = Response})
  unfolding new_uuid
  uuid-Keeps = record { run = λ w h. (h, tt) }

  result-Keeps : {A : Type 0} (r : Result Error A) → Keeps Any (from_result (internal r))
  result-Keeps r = record { run = λ w h. (h, internal-Answers r) }

  load-Answers :
      (uuid_parse : String → Bool) (id : String) (w : World B)
      → (r : Result Response Sandbox) → (load uuid_parse id w).0 ≡ r
      → AllConsistent w
      → Answers IsConsistent r
  load-Answers uuid_parse id w (ok row) e h = load-IsConsistent uuid_parse id row w h e
  load-Answers uuid_parse id w (err r) e h = load_error uuid_parse id r w e

  load-Keeps : (uuid_parse : String → Bool) (id : String) → Keeps IsConsistent (load uuid_parse id)
  load-Keeps uuid_parse id = record {
    run = λ w h. (rw (load-keeps uuid_parse id w) h, load-Answers uuid_parse id w _ refl h);
  }
