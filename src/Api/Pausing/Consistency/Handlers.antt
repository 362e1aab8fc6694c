-- ===== src/Api/Pausing/Consistency/Handlers.antt =====
-- Every handler of the API keeps the pause references consistent.
use cage.Common.{String, List, [], ◌∷◌, ◌≢◌, refl, Option, none, some, Bool, All}
use cage.Api.Pausing.Consistency.Actions.{create_sandbox-Keeps, handle-Keeps}
use cage.Common.Exec.{Error, Result, ok, err}
use cage.Backend.{Interactive, Shell, as_interactive}
use cage.Store
use cage.Store.{
  Sandbox, Template, SandboxStatus, running, stopped, paused, Db, row_of, upsert, delete_row,
  answer,
}
use cage.World.{World}
use cage.Api.{Api, Handler, Response, serve, response_of}
use cage.Api.Shell.{Event, open_shell_session, with_shell, ran}
use cage.Api.Sandboxes.{create_sandbox, list_sandboxes, list_templates}
use cage.Api.Commands.Guards.{Request, handle}
use cage.Api.Pausing.{no_reference}
use cage.Api.Pausing.Consistency.{
  IsConsistent, AllConsistent, Keeps, Answers, Referenced, bind, load-Keeps, require-Keeps,
  or_else-Keeps, backend-Keeps, db-Keeps, pure-Keeps, other_status,
}

answer-AllConsistent :
    {A : Type 0} (text : String) (o : Option Error) (a : A) (after db : Db)
    → All IsConsistent after.sandboxes
    → All IsConsistent db.sandboxes
    → All IsConsistent (answer text o (a, after) db).1.sandboxes
answer-AllConsistent text none a after db h h' = h
answer-AllConsistent text (some e) a after db h h' = h'

-- A handshake that fails is answered by the websocket library, with an answer that is not the API's.
abbrev pub IsForeign : Result Response (Unit {0}) → Type 0
IsForeign (ok _) = Unit {0}
IsForeign (err r) = r ≢ no_reference

module _ {B : Type 0} (api : Api B) where
  list_sandboxes-Keeps : Keeps Referenced (list_sandboxes api)
  unfolding list_sandboxes Store.list
  list_sandboxes-Keeps =
      bind _ _ _ _
        (db-Keeps Store.list (λ db h. answer-AllConsistent _ (db.outage db.statements) _ _ _ h h))
        λ rows t. pure-Keeps _ (other_status _ refl)

  list_templates-Keeps : Keeps Referenced (list_templates api)
  unfolding list_templates Store.list_template
  list_templates-Keeps =
      bind _ _ _ _
        (db-Keeps Store.list_template
          (λ db h. answer-AllConsistent _ (db.outage db.statements) _ _ _ h h))
        λ ts t. pure-Keeps _ (other_status _ refl)

  ran-Keeps :
      (upgrade : Result Response (Unit {0})) (events : List Event) (shell : Shell B)
      → IsForeign upgrade
      → Keeps Referenced (ran upgrade events shell)
  ran-Keeps (ok _) events shell own = record { run = λ w h. (h, other_status _ refl) }
  ran-Keeps (err r) events shell own = record { run = λ w h. (h, own) }

  open_shell_session-Keeps :
      (uuid_parse : String → Bool) (id : String) (upgrade : Result Response (Unit {0}))
      (events : List Event)
      → IsForeign upgrade
      → Keeps Referenced (open_shell_session api uuid_parse id upgrade events)
  unfolding open_shell_session with_shell
  open_shell_session-Keeps uuid_parse id upgrade events own =
      bind _ _ _ _ (or_else-Keeps (as_interactive api.sb) _ (λ e. other_status _ refl))
        λ (interactive : Interactive B) e.
          bind IsConsistent _ _ _ (load-Keeps uuid_parse id) λ row c.
            bind _ _ _ _ (require-Keeps (Store.is_running row.status) _ (other_status _ refl))
              λ t active.
                bind _ _ _ _ (backend-Keeps (interactive.open_shell row.id))
                  λ shell t. ran-Keeps upgrade events shell own

-- A request to the API: one for each route below /sandboxes, and one for /templates.
pub data Call : Type 0 where
  creates : String → Call
  lists templates : Call
  calls : String → Request → Call
  opens : String → Result Response (Unit {0}) → List Event → Call

abbrev pub HasForeign : Call → Type 0
HasForeign (opens id upgrade events) = IsForeign upgrade
HasForeign _ = Unit {0}

module _ {B : Type 0} (api : Api B) (uuid_parse : String → Bool) where
  abbrev pub answer_to : Call → World B → Response × World B
  answer_to (creates template) = serve (create_sandbox api template)
  answer_to lists = serve (list_sandboxes api)
  answer_to templates = serve (list_templates api)
  answer_to (calls id req) = serve (handle api uuid_parse id req)
  answer_to (opens id upgrade events) = serve (open_shell_session api uuid_parse id upgrade events)

  abbrev pub answers : List Call → World B → List Response × World B
  answers [] w = ([], w)
  answers (c ∷ cs) w = let (r, w') = answer_to c w in let (rs, w'') = answers cs w' in (r ∷ rs, w'')

  written : (r : Result Response Response) → Answers Referenced r → Referenced (response_of r)
  written (ok r) q = q
  written (err r) q = q

  served :
      (m : Handler B Response) (w : World B)
      → Keeps Referenced m
      → AllConsistent w
      → AllConsistent (serve m w).1 × Referenced (serve m w).0
  served m w keeps h = let (h', q) = keeps.run w h in (h', written _ q)

  answer_to-Referenced :
      (c : Call) (w : World B)
      → HasForeign c
      → AllConsistent w
      → AllConsistent (answer_to c w).1 × Referenced (answer_to c w).0
  answer_to-Referenced (creates template) w own = served _ w (create_sandbox-Keeps api template)
  answer_to-Referenced lists w own = served _ w (list_sandboxes-Keeps api)
  answer_to-Referenced templates w own = served _ w (list_templates-Keeps api)
  answer_to-Referenced (calls id req) w own = served _ w (handle-Keeps api uuid_parse id req)
  answer_to-Referenced (opens id upgrade events) w own =
      served _ w (open_shell_session-Keeps api uuid_parse id upgrade events own)

  -- From a table in which a record has a pause reference exactly if it is paused, every sequence of
  -- requests to the handlers of handlers.go and shell.go, whatever the backend and the database
  -- answer, leaves such a table, and no request is answered with the inconsistency that ResumeSandbox
  -- guards against, if the websocket library does not give that answer to a failed handshake itself.
  pub answers-Referenced :
      (cs : List Call) (w : World B)
      → All HasForeign cs
      → AllConsistent w
      → AllConsistent (answers cs w).1 × All Referenced (answers cs w).0
  answers-Referenced [] w own h = (h, tt)
  answers-Referenced (c ∷ cs) w own h =
      let (h', q) = answer_to-Referenced c w own.0 h in
      let (h'', qs) = answers-Referenced cs (answer_to c w).1 own.1 h' in (h'', (q, qs))
