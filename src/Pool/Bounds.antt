-- ===== src/Pool/Bounds.antt =====
-- No channel of the pool ever holds more than its template's size.
use cage.Common.{
  ℕ, zero, suc, ◌≤◌, String, List, [], ◌∷◌, ◌≡◌, subst, Bool-cases, Option, none, some, arith, ltb,
  length, length-append, inl, inr, Option-cases, str_eq, str_eq_iff, if◌then◌else◌,
}
use cage.Common.Dict.{lookup, lookup-insert}
use cage.Common.Exec.{Error, Result, ok, err}
use cage.Backend.{SandboxBackend}
use cage.World.{World, Pool, Channel, Signal, TemplateConfig}
use cage.Pool.{
  queue_of, offer, put_channel, park, spawned, spawn_one, fill, top_up, trigger_refill, take, new,
  receive_refill,
}

abbrev pub HasRoom : ℕ → Option Channel → Type 0
HasRoom size none = Unit
HasRoom size (some c) = (length c.queue ≤ size) × (c.cap ≡ size)

abbrev pub FitsSignal : ℕ → Option Signal → Type 0
FitsSignal size none = Unit
FitsSignal size (some s) = (s.pending ≤ size) × (s.cap ≡ size)

-- Both channels of a slug are made for its size, and hold no more.
pub record IsBounded (size : String → ℕ) (p : Pool) : Type 0 where
  pub warm : (slug : String) → HasRoom (size slug) (lookup slug p.warm)
  pub refill : (slug : String) → FitsSignal (size slug) (lookup slug p.refill)

-- The size that the templates give a slug, the last of them where several have it.
abbrev pub size_of : List TemplateConfig → ℕ → String → ℕ
size_of [] n slug = n
size_of (t ∷ ts) n slug = size_of ts (if str_eq t.slug slug then t.size else n) slug

offer_fits :
    (n : ℕ) (id : String) (o : Option Channel) (c : Channel)
    → HasRoom n o
    → offer id o ≡ some c
    → HasRoom n (some c)
offer_fits n id none c h e = absurd cc
offer_fits n id (some x) c h e = ground (arith, length-append x.queue (id ∷ []))

module _ (size : String → ℕ) where
  put :
      {C : Type 0} (P : ℕ → Option C → Type 0) (slug s : String) (c : C) (o : Option C)
      → P (size slug) (some c)
      → P (size s) o
      → P (size s) (if str_eq slug s then some c else o)
  put P slug s c o new old = elim (Bool-cases (str_eq slug s)) [
    | inl same ↦ rw same (subst (λ i. P (size i) (some c)) ((str_eq_iff slug s).0 same) new)
    | inr other ↦ rw other old
  ]

  put_channel-IsBounded :
      {B : Type 0} (slug : String) (c : Channel) (w : World B)
      → HasRoom (size slug) (some c)
      → IsBounded size w.pool
      → IsBounded size (put_channel slug c w).pool
  put_channel-IsBounded slug c w room h = record {
    warm = λ s. rw (lookup-insert slug s c w.pool.warm) (put HasRoom slug s c _ room (h.warm s));
    refill = h.refill;
  }

module _ {B : Type 0} (sb : SandboxBackend B) (size : String → ℕ) where
  park-IsBounded :
      (slug id : String) (w : World B)
      → IsBounded size w.pool
      → IsBounded size (park sb slug id w).pool
  park-IsBounded slug id w h = elim (Option-cases (offer id (lookup slug w.pool.warm))) [
    | inl e ↦ rw (e, park) h
    | inr (c, e) ↦
        rw (e, park)
          (put_channel-IsBounded size slug c w
            (offer_fits (size slug) id (lookup slug w.pool.warm) c (h.warm slug) e) h)
  ]

  spawned-IsBounded :
      (r : Result Error (Unit {0})) (slug id : String) (w : World B)
      → IsBounded size w.pool
      → IsBounded size (spawned sb r slug id w).pool
  spawned-IsBounded (ok x) slug id w h = park-IsBounded slug id w h
  spawned-IsBounded (err e) slug id w h = h

  spawn_one-IsBounded :
      (slug ref : String) (w : World B)
      → IsBounded size w.pool
      → IsBounded size (spawn_one sb slug ref w).pool
  unfolding spawn_one
  spawn_one-IsBounded slug ref w h = spawned-IsBounded _ slug _ _ h

  top_up-IsBounded :
      (fuel : ℕ) (slug : String) (cfg : TemplateConfig) (w w' : World B)
      → IsBounded size w.pool
      → top_up sb fuel slug cfg w ≡ some w'
      → IsBounded size w'.pool
  unfolding top_up
  top_up-IsBounded zero slug cfg w w' h e = cc
  top_up-IsBounded (suc fuel) slug cfg w w' h e =
      elim (Bool-cases (ltb (length (queue_of (lookup slug w.pool.warm))) cfg.size)) [
        | inl more ↦
            top_up-IsBounded fuel slug cfg (spawn_one sb slug cfg.template_ref w) w'
              (spawn_one-IsBounded slug cfg.template_ref w h) (rw more at e)
        | inr full ↦ let same : w ≡ w' = ground arith in subst (λ x. IsBounded size x.pool) same h
      ]

-- One step of a goroutine that uses the pool: a whole spawnOne, its last half alone, a Take, the
-- first fill, a refill signal sent or received, or a change of the backend by someone else. The rounds
-- of a topUp are such spawnOnes.
pub data Event (B : Type 0) : Type 0 where
  spawns parks : String → String → Event B
  takes signals receives : String → Event B
  fills : ℕ → String → String → Event B
  others : B → Event B

module _ {B : Type 0} (sb : SandboxBackend B) where
  abbrev pub step : Event B → World B → World B
  step (spawns slug ref) w = spawn_one sb slug ref w
  step (parks slug id) w = park sb slug id w
  step (takes slug) w = (take sb slug w).1
  step (signals slug) w = trigger_refill slug w
  step (receives slug) w = receive_refill slug w
  step (fills n slug ref) w = fill sb n slug ref w
  step (others b) w = record w { backend = b }

  abbrev pub steps : List (Event B) → World B → World B
  steps [] w = w
  steps (e ∷ es) w = steps es (step e w)
