-- ===== src/Pool/Refill.antt =====
-- When topUp ends, and what spawnOne leaves behind.
use cage.Common.{
  ℕ, zero, suc, ◌+◌, ◌≤◌, ◌<◌, String, [], ◌∷◌, ◌++◌, ◌≡◌, refl, sym, ap, subst, inl, inr,
  Bool-cases, none, some, arith, length, length-append, ltb, concat,
}
use cage.Common.Dict.{lookup, lookup-insert_self}
use cage.Common.Exec.{Error, ok, err}
use cage.Backend.{SandboxBackend}
use cage.World.{World, Channel, TemplateConfig}
use cage.Pool.{queue_of, spawn_one, top_up}

module _ {B : Type 0} (sb : SandboxBackend B) where
  abbrev pub depth : String → World B → ℕ
  depth slug w = length (queue_of (lookup slug w.pool.warm))

  -- A create that fails leaves the channels alone, and one that succeeds with room in the channel
  -- makes it longer by one.
  spawn_one-depth :
      (slug ref : String) (w : World B) (c : Channel)
      → lookup slug w.pool.warm ≡ some c
      → length c.queue < c.cap
      → (sb.create_sandbox (concat "warm-" (w.uuid w.issued)) ref w.backend).0 ≡ ok tt
      → lookup slug (spawn_one sb slug ref w).pool.warm
        ≡ some (record c { queue = c.queue ++ concat "warm-" (w.uuid w.issued) ∷ [] })
  unfolding spawn_one
  spawn_one-depth slug ref w c here room created = ground (
    arith,
    lookup-insert_self slug (record c { queue = c.queue ++ concat "warm-" (w.uuid w.issued) ∷ [] })
        w.pool.warm,
  )

  spawn_one_fails :
      (slug ref : String) (w : World B) (e : Error)
      → (sb.create_sandbox (concat "warm-" (w.uuid w.issued)) ref w.backend).0 ≡ err e
      → (spawn_one sb slug ref w).pool ≡ w.pool
  unfolding spawn_one
  spawn_one_fails slug ref w e failed = ground arith

  module _ (slug : String) (cfg : TemplateConfig) where
    -- If every create of the backend succeeds, topUp ends after as many rounds as places are free,
    -- with the channel full: `n` bounds the free places and the fuel is above it.
    pub top_up_fills :
        (n fuel : ℕ) (w : World B) (c : Channel)
        → ((id ref : String) (b : B) → (sb.create_sandbox id ref b).0 ≡ ok tt)
        → lookup slug w.pool.warm ≡ some c
        → c.cap ≡ cfg.size
        → cfg.size ≤ length c.queue + n
        → n < fuel
        → (w' : World B) × (top_up sb fuel slug cfg w ≡ some w') × (cfg.size ≤ depth slug w')
    unfolding top_up
    top_up_fills n zero w c creates here cap free enough = absurd (omega arith)
    top_up_fills zero (suc fuel) w c creates here cap free enough =
        (w, ground (arith, ap queue_of here), ground (arith, ap queue_of here))
    top_up_fills (suc n) (suc fuel) w c creates here cap free enough =
        elim (Bool-cases (ltb (depth slug w) cfg.size)) [
          | inl more ↦
              let id = concat "warm-" (w.uuid w.issued) in
              let room : length c.queue < c.cap = ground (arith, ap queue_of here) in
              let longer = record c { queue = c.queue ++ id ∷ [] } in
              let (w', ends, full) =
                top_up_fills n fuel (spawn_one sb slug cfg.template_ref w) longer creates
                  (spawn_one-depth slug cfg.template_ref w c here room
                    (creates id cfg.template_ref w.backend))
                  cap (omega (arith, length-append c.queue (id ∷ []))) (omega arith) in
              (w', rw more ends, full)
          | inr full ↦ (w, rw full, ground arith)
        ]

    -- If every create of the backend fails while places are free, topUp never ends: it makes the
    -- same round again with no pause, for every number of rounds.
    pub top_up_spins :
        (fuel : ℕ) (w : World B)
        → ((id ref : String) (b : B) → (e : Error) × ((sb.create_sandbox id ref b).0 ≡ err e))
        → depth slug w < cfg.size
        → top_up sb fuel slug cfg w ≡ none
    unfolding top_up
    top_up_spins zero w fails free = refl
    top_up_spins (suc fuel) w fails free =
        let (e, failed) = fails (concat "warm-" (w.uuid w.issued)) cfg.template_ref w.backend in
        let same = spawn_one_fails slug cfg.template_ref w e failed in
        let still : depth slug (spawn_one sb slug cfg.template_ref w) < cfg.size =
          subst (λ p. length (queue_of (lookup slug p.warm)) < cfg.size) (sym same) free in
        ground (arith, top_up_spins fuel (spawn_one sb slug cfg.template_ref w) fails still)
