-- ===== src/Sdk.antt =====
-- sdk/go: the client of the server's HTTP API. `N` is the state of the network and what it reaches.
-- A request with a body has the content type of JSON.
use cage.Common.{
  ℕ, String, List, [], ◌∷◌, Option, none, some, concat, str_eq, leb, ◌==◌, if◌then◌else◌,
}
use cage.Common.Text.{concat_all}
use cage.Common.Exec.{Exec, Error, Result, ok, err, wrap, pure, from_result, ◌>>=◌}

pub record Sandbox : Type 0 where
  pub id : String
  pub status : String
  pub created_at : String
  pub expires_at : String
  pub template_slug : String

pub record Template : Type 0 where
  pub id : String
  pub slug : String
  pub image : String
  pub description : String

pub record ExecResult : Type 0 where
  pub stdout : String
  pub stderr : String
  pub exit_code : ℕ

-- What json.Marshal is given as a body; the template is left out where it is "".
pub data Payload : Type 0 where
  create_options : String → Payload
  command : List String → Payload
  file : String → String → Payload

pub record HttpRequest : Type 0 where
  pub method : String
  pub url : String
  pub authorization : Option String
  pub body : Option Payload

pub record HttpReply : Type 0 where
  pub status_code : ℕ
  pub body : String

pub data ClientError : Type 0 where
  api_error : ℕ → String → ClientError
  other : Error → ClientError

-- httpClient.Do, and json's decoders.
pub record Transport (N : Type 0) : Type 0 where
  pub exchange : HttpRequest → Exec Error N HttpReply
  pub sandbox : String → Result Error Sandbox
  pub sandboxes : String → Result Error (List Sandbox)
  pub templates : String → Result Error (List Template)
  pub exec_result : String → Result Error ExecResult

pub record Client : Type 0 where
  pub base_url : String
  pub api_key : String

abbrev pub empty_sandbox : Sandbox
empty_sandbox = record {
  id = "";
  status = "";
  created_at = "";
  expires_at = "";
  template_slug = "";
}

module _ {N : Type 0} (net : Transport N) (c : Client) where
  abbrev bearer : Option String
  bearer = if str_eq c.api_key "" then none else some (concat "Bearer " c.api_key)

  abbrev failed : {A : Type 0} → String → Result Error A → Result ClientError A
  failed text (ok a) = ok a
  failed text (err e) = err (other (wrap text e))

  abbrev exchanged : HttpRequest → Exec ClientError N HttpReply
  exchanged req s = let (r, s') = net.exchange req s in (failed "request failed" r, s')

  abbrev accepted : HttpReply → Result ClientError HttpReply
  accepted reply =
      if leb 400 reply.status_code then err (api_error reply.status_code reply.body) else ok reply

  -- do, as far as the reply. A request of the client's builds and marshals.
  unfoldable pub do_request : String → String → Option Payload → Exec ClientError N HttpReply
  do_request method path body = do
    reply ← exchanged (record {
      method = method;
      url = concat c.base_url path;
      authorization = bearer;
      body = body;
    })
    from_result (accepted reply)

  -- The decoding of `out`, which starts as `zero`; a reply without content leaves it so.
  abbrev decoded : {A : Type 0} → (String → Result Error A) → A → HttpReply → Result ClientError A
  decoded decode zero reply =
      if reply.status_code == 204
      then ok zero
      else failed "failed to decode response" (decode reply.body)

  unfoldable pub create_sandbox : String → Exec ClientError N Sandbox
  create_sandbox template = do
    reply ← do_request "POST" "/sandboxes" (some (create_options template))
    from_result (decoded net.sandbox empty_sandbox reply)

  -- The ID follows the path without a slash between them, as in the source.
  unfoldable pub get_sandbox : String → Exec ClientError N Sandbox
  get_sandbox id = do
    reply ← do_request "GET" (concat "/sandboxes" id) none
    from_result (decoded net.sandbox empty_sandbox reply)

  unfoldable pub list_sandboxes : Exec ClientError N (List Sandbox)
  list_sandboxes = do
    reply ← do_request "GET" "/sandboxes" none
    from_result (decoded net.sandboxes [] reply)

  unfoldable pub delete_sandbox : String → Exec ClientError N (Unit {0})
  delete_sandbox id = do _ ← do_request "DELETE" (concat "/sandboxes/" id) none; pure tt

  abbrev action_path : String → String → String
  action_path id action = concat_all ("/sandboxes/" ∷ id ∷ "/" ∷ action ∷ [])

  unfoldable pub pause_sandbox : String → Exec ClientError N Sandbox
  pause_sandbox id = do
    reply ← do_request "POST" (action_path id "pause") none
    from_result (decoded net.sandbox empty_sandbox reply)

  unfoldable pub resume_sandbox : String → Exec ClientError N Sandbox
  resume_sandbox id = do
    reply ← do_request "POST" (action_path id "resume") none
    from_result (decoded net.sandbox empty_sandbox reply)

  unfoldable pub exec : String → List String → Exec ClientError N ExecResult
  exec id cmd = do
    reply ← do_request "POST" (action_path id "exec") (some (command cmd))
    from_result (decoded net.exec_result (record { stdout = ""; stderr = ""; exit_code = 0 }) reply)

  unfoldable pub write_file : String → String → String → Exec ClientError N (Unit {0})
  write_file id path content = do
    _ ← do_request "POST" (action_path id "files") (some (file path content))
    pure tt

  -- ReadFile builds its own request: it sends the key even where it is empty, the path as it is, and
  -- the reply's body is not decoded.
  unfoldable pub read_file : String → String → Exec ClientError N String
  read_file id path = do
    reply ← exchanged (record {
      method = "GET";
      url = concat_all (c.base_url ∷ "/sandboxes/" ∷ id ∷ "/files?path=" ∷ path ∷ []);
      authorization = some (concat "Bearer " c.api_key);
      body = none;
    })
    good ← from_result (accepted reply)
    pure good.body

  unfoldable pub list_templates : Exec ClientError N (List Template)
  list_templates = do
    reply ← do_request "GET" "/templates" none
    from_result (decoded net.templates [] reply)
