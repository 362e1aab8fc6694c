-- ===== src/Api/Shell/Keystrokes.antt =====
-- What the client types reaches the shell.
use cage.Common.{
  ℕ, suc, List, [], ◌∷◌, ◌++◌, Option, none, some, take, ◌≡◌, refl, sym, ap, ◌∙◌, arith, Bool-cases,
  inl, inr,
}
use mathlib.Core.List.{append-nil, append_assoc}
use cage.Backend.{Shell}
use cage.Api.Shell.{
  binary, control, Event, arrives, disconnects, outputs, Session, bridge, step, on_control,
  ResizeMessage, buffer_size,
}

abbrev stroke : Event → List ℕ
stroke (arrives (binary bytes)) = bytes
stroke _ = []

-- The bytes that the client's frames carry, in order.
abbrev pub typed : List Event → List ℕ
typed [] = []
typed (e ∷ es) = stroke e ++ typed es

-- A shell that takes every byte: `input` are the bytes that it has been given.
pub record IsAttentive {B : Type 0} (shell : Shell B) : Type 0 where
  pub input : B → List ℕ
  pub writes : (bytes : List ℕ) (b : B) → input (shell.write bytes b).1 ≡ input b ++ bytes
  pub resizes : (cols rows : ℕ) (b : B) → input (shell.resize cols rows b).1 ≡ input b
  pub reads : (n : ℕ) (b : B) → input (shell.read n b).1 ≡ input b

module _ {B : Type 0} (shell : Shell B) (h : IsAttentive shell) where
  pub control-input :
      (m : Option ResizeMessage) (b : B) → h.input (on_control shell m b) ≡ h.input b
  control-input none b = refl
  control-input (some m) b = grind (arith, h.resizes)

  step-input :
      (e : Event) (s : Session B)
      → h.input (step shell e s).1.backend ≡ h.input s.backend ++ stroke e
  step-input (arrives (binary bytes)) s = h.writes bytes s.backend
  step-input (arrives (control m)) s = control-input m s.backend ∙ sym (append-nil _)
  step-input disconnects s = sym (append-nil _)
  step-input (outputs taken) s = h.reads buffer_size s.backend ∙ sym (append-nil _)

  -- A shell that takes every byte has been given, when the session ends, the bytes of the client's
  -- binary frames, in order and each once, up to the frame at which the session ended.
  pub bridge-input :
      (es : List Event) (s : Session B)
      → (n : ℕ) × (h.input (bridge shell es s).backend ≡ h.input s.backend ++ typed (take n es))
  unfolding bridge
  bridge-input [] s = (0, sym (append-nil _))
  bridge-input (e ∷ es) s = elim (Bool-cases (step shell e s).0) [
    | inl on ↦
        let (n, rest) = bridge-input es (step shell e s).1 in
        (
          suc n,
          rw on (
              rest
              ∙ ap (λ bs. bs ++ typed (take n es)) (step-input e s)
              ∙ append_assoc (h.input s.backend) (stroke e) (typed (take n es))),
        )
    | inr off ↦ (
      1,
      rw off (step-input e s ∙ ap (λ bs. h.input s.backend ++ bs) (sym (append-nil (stroke e)))),
    )
  ]
