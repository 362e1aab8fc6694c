-- ===== src/Pool.antt =====
-- internal/pool/pool.go: the warm pool. Channel operations are atomic steps on the queues.
pub mod Bounds
pub mod Refill
pub mod Take
use cage.Common.{
  ℕ, zero, suc, ◌+◌, ◌-◌, String, List, [], ◌∷◌, ◌++◌, Option, none, some, Bool, true, false, ltb,
  length, concat, if◌then◌else◌,
}
use cage.Common.Dict.{Dict, lookup, insert}
use cage.Common.Exec.{Exec, Error, Result, ok, err, attempt, ◌>>=◌}
use cage.Backend.{SandboxBackend}
use cage.World.{World, Pool, Channel, Signal, TemplateConfig, on_backend, new_uuid}

abbrev pub no_pool : Pool
no_pool = record { templates = []; warm = []; refill = [] }

-- The body of New's loop over the templates.
abbrev pub add_template : TemplateConfig → Pool → Pool
add_template t p = record {
  templates = insert t.slug t p.templates;
  warm = insert t.slug (record { queue = []; cap = t.size }) p.warm;
  refill = insert t.slug (record { pending = 0; cap = t.size }) p.refill;
}

unfoldable pub new : List TemplateConfig → Pool → Pool
new [] p = p
new (t ∷ ts) p = new ts (add_template t p)

-- The queue of a slug; a missing channel is nil, which holds nothing.
abbrev pub queue_of : Option Channel → List String
queue_of none = []
queue_of (some c) = c.queue

-- `select { case p.warm[slug] <- id: … default: … }`: the channel after the send, if it has room.
abbrev pub offer : String → Option Channel → Option Channel
offer id none = none
offer id (some c) =
    if ltb (length c.queue) c.cap then some (record c { queue = c.queue ++ id ∷ [] }) else none

abbrev pub put_channel : {B : Type 0} → String → Channel → World B → World B
put_channel slug c w = record w { pool = record w.pool { warm = insert slug c w.pool.warm } }

abbrev pub signalled : Option Signal → Dict Signal → String → Dict Signal
signalled none m slug = m
signalled (some s) m slug =
    if ltb s.pending s.cap then insert slug (record s { pending = suc s.pending }) m else m

unfoldable pub trigger_refill : {B : Type 0} → String → World B → World B
trigger_refill slug w = record w {
  pool = record w.pool { refill = signalled (lookup slug w.pool.refill) w.pool.refill slug };
}

-- `case <-p.refill[slug]` of maintain takes a signal, where there is one.
abbrev pub received : Option Signal → Dict Signal → String → Dict Signal
received none m slug = m
received (some s) m slug = insert slug (record s { pending = s.pending - 1 }) m

unfoldable pub receive_refill : {B : Type 0} → String → World B → World B
receive_refill slug w = record w {
  pool = record w.pool { refill = received (lookup slug w.pool.refill) w.pool.refill slug };
}

abbrev pub is_up : Result Error Bool → Bool
is_up (ok b) = b
is_up (err e) = false

abbrev pub missed : {B : Type 0} → World B → World B
missed w = record w { pool_misses = suc w.pool_misses }

abbrev pub hit : {B : Type 0} → String → World B → World B
hit slug w = let w' = trigger_refill slug w in record w' { pool_hits = suc w'.pool_hits }

module _ {B : Type 0} (sb : SandboxBackend B) where
  abbrev discard : String → World B → World B
  discard id w = record w { backend = (sb.kill_sandbox id w.backend).1 }

  -- What spawnOne does with the sandbox that it has created.
  abbrev pub park : String → String → World B → World B
  park slug id w = elim (offer id (lookup slug w.pool.warm)) [
    | some c ↦ put_channel slug c w
    | none ↦ discard id w
  ]

  abbrev pub spawned : Result Error (Unit {0}) → String → String → World B → World B
  spawned (err e) slug id w = w
  spawned (ok _) slug id w = park slug id w

  -- Errors are logged only.
  unfoldable pub spawn_one : String → String → World B → World B
  spawn_one slug template_ref w =
      let id = concat "warm-" (w.uuid w.issued) in
      let (r, b) = sb.create_sandbox id template_ref w.backend in
      spawned r slug id (record w { backend = b; issued = suc w.issued })

  -- The first fill of maintain.
  unfoldable pub fill : ℕ → String → String → World B → World B
  fill zero slug ref w = w
  fill (suc n) slug ref w = fill n slug ref (spawn_one slug ref w)

  -- The loop of topUp, on fuel; `none` is a loop that is still going.
  unfoldable pub top_up : ℕ → String → TemplateConfig → World B → Option (World B)
  top_up zero slug cfg w = none
  top_up (suc fuel) slug cfg w =
      let rest = top_up fuel slug cfg (spawn_one slug cfg.template_ref w) in
      if ltb (length (queue_of (lookup slug w.pool.warm))) cfg.size then rest else some w

  -- The loop of Take over what the channel holds: each round receives the oldest ID and asks the
  -- backend about it.
  unfoldable pub take_loop : String → ℕ → List String → World B → Option String × World B
  take_loop slug cap [] w = (none, missed w)
  take_loop slug cap (id ∷ rest) w =
      let w' = put_channel slug (record { queue = rest; cap = cap }) w in
      let (r, b) = sb.is_running id w'.backend in
      let w'' = record w' { backend = b } in
      let later = take_loop slug cap rest w'' in if is_up r then (some id, hit slug w'') else later

  unfoldable pub take : String → World B → Option String × World B
  take slug w = elim (lookup slug w.pool.warm) [
    | none ↦ (none, missed w)
    | some c ↦ take_loop slug c.cap c.queue w
  ]
