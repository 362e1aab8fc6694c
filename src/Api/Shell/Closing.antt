-- ===== src/Api/Shell/Closing.antt =====
-- No shell outlives its session.
use cage.Common.{
  ℕ, suc, ◌-◌, String, List, [], ◌∷◌, Bool, Option, none, some, ◌≡◌, refl, ap, ◌∙◌, arith,
}
use cage.Common.Exec.{Error, Result, ok, err, and_then}
use cage.Backend.{Shell, Interactive}
use cage.Api.{Api, Response, serve, load, internal}
use cage.Store
use cage.World.{World, on_backend}
use cage.Api.Shell.{
  binary, control, Event, arrives, disconnects, outputs, Session, bridge, step, on_control,
  ResizeMessage, buffer_size, session, ran, with_shell, open_shell_session,
}

-- What only counts as one shell fewer when it is closed.
pub record IsOpen {B : Type 0} (shells : B → ℕ) (shell : Shell B) : Type 0 where
  pub closes : (b : B) → shells (shell.close b).1 ≡ shells b - 1
  pub reads : (n : ℕ) (b : B) → shells (shell.read n b).1 ≡ shells b
  pub writes : (bytes : List ℕ) (b : B) → shells (shell.write bytes b).1 ≡ shells b
  pub resizes : (cols rows : ℕ) (b : B) → shells (shell.resize cols rows b).1 ≡ shells b

-- `shells` counts the open shells of a backend.
pub record IsCounted {B : Type 0} (i : Interactive B) : Type 0 where
  pub shells : B → ℕ
  pub opens :
      (id : String) (shell : Shell B) (b : B)
      → (i.open_shell id b).0 ≡ ok shell
      → (shells (i.open_shell id b).1 ≡ suc (shells b)) × IsOpen shells shell
  pub fails :
      (id : String) (e : Error) (b : B)
      → (i.open_shell id b).0 ≡ err e
      → shells (i.open_shell id b).1 ≡ shells b

module _ {B : Type 0} (shells : B → ℕ) (shell : Shell B) (h : IsOpen shells shell) where
  control-shells : (m : Option ResizeMessage) (b : B) → shells (on_control shell m b) ≡ shells b
  control-shells none b = refl
  control-shells (some m) b = grind (arith, h.resizes)

  step-shells : (e : Event) (s : Session B) → shells (step shell e s).1.backend ≡ shells s.backend
  step-shells (arrives (binary bytes)) s = h.writes bytes s.backend
  step-shells (arrives (control m)) s = control-shells m s.backend
  step-shells disconnects s = refl
  step-shells (outputs taken) s = h.reads buffer_size s.backend

  bridge-shells :
      (es : List Event) (s : Session B) → shells (bridge shell es s).backend ≡ shells s.backend
  unfolding bridge
  bridge-shells [] s = refl
  bridge-shells (e ∷ es) s = grind (arith, step-shells e s, bridge-shells es)

  session-shells :
      (upgrade : Result Response (Unit {0})) (es : List Event) (b : B)
      → shells (session upgrade es shell b) ≡ shells b - 1
  session-shells (ok _) es b =
      h.closes _ ∙ ap (λ n. n - 1) (bridge-shells es (record { backend = b; sent = [] }))
  session-shells (err r) es b = h.closes b

load-backend :
    {B : Type 0} (uuid_parse : String → Bool) (id : String) (w : World B)
    → (load uuid_parse id w).1.backend ≡ w.backend
unfolding load Store.get
load-backend uuid_parse id w = ground arith

module _ {B : Type 0} (i : Interactive B) (counted : IsCounted i) where
  ran-shells :
      (shell : Shell B) (upgrade : Result Response (Unit {0})) (es : List Event) (w : World B)
      → IsOpen counted.shells shell
      → counted.shells (ran upgrade es shell w).1.backend ≡ counted.shells w.backend - 1
  ran-shells shell (ok u) es w h = session-shells counted.shells shell h (ok tt) es w.backend
  ran-shells shell (err r) es w h = session-shells counted.shells shell h (err r) es w.backend

  opened-shells :
      (id : String) (upgrade : Result Response (Unit {0})) (es : List Event) (w w' : World B)
      (r : Result Error (Shell B))
      → (i.open_shell id w.backend).0 ≡ r
      → w'.backend ≡ (i.open_shell id w.backend).1
      → counted.shells (and_then (internal r) (ran upgrade es) w').1.backend
        ≡ counted.shells w.backend
  opened-shells id upgrade es w w' (err e) h g =
      ap counted.shells g ∙ counted.fails id e w.backend h
  opened-shells id upgrade es w w' (ok shell) h g =
      let (one, is_open) = counted.opens id shell w.backend h in
      omega (arith, ran-shells shell upgrade es w' is_open, one, ap counted.shells g)

  with_shell-shells :
      (id : String) (upgrade : Result Response (Unit {0})) (es : List Event) (w : World B)
      → counted.shells (with_shell i id upgrade es w).1.backend ≡ counted.shells w.backend
  unfolding with_shell
  with_shell-shells id upgrade es w =
      opened-shells id upgrade es w (on_backend (i.open_shell id) w).1 (i.open_shell id w.backend).0
        refl refl

module _ {B : Type 0} (api : Api B) (uuid_parse : String → Bool) where
  -- On a backend whose shells are counted, a request for a shell leaves as many open as there were
  -- before it, whatever it is answered, however the handshake ends and whatever happens in the
  -- session.
  pub open_shell_session_closes :
      (i : Interactive B)
      → api.sb.interactive ≡ some i
      → (counted : IsCounted i)
      → (id : String) (upgrade : Result Response (Unit {0})) (es : List Event) (w : World B)
      → counted.shells (serve (open_shell_session api uuid_parse id upgrade es) w).1.backend
        ≡ counted.shells w.backend
  unfolding open_shell_session
  open_shell_session_closes i e counted id upgrade es w =
      rw e (grind (arith, load-backend, with_shell-shells i counted))
