-- ===== src/Api/Sandboxes/Creation.antt =====
-- What CreateSandbox promises with a 201.
use cage.Common.{
  ℕ, suc, ◌+◌, String, List, [], ◌∷◌, ◌≡◌, ◌≢◌, refl, Option, none, some, Option-cases, inl, inr,
  Bool, true, false, Bool-cases, arith, str_eq_self,
}
use cage.Common.Dict.{lookup}
use cage.Common.Exec.{err, Result-cases}
use cage.Backend.{SandboxBackend, WarmAdopter, as_warm_adopter}
use cage.Store
use cage.Store.{Sandbox, Db, Template, row_of, running}
use cage.Store.Rows.{save-row_of, save_failed}
use cage.Pool.{is_up, take_loop, take, trigger_refill}
use cage.World
use cage.World.{World, on_backend, on_db}
use cage.Api.{Api, Response, serve, sandbox}
use cage.Api.Sandboxes.{
  create_sandbox, resolve, from_pool, warm_start, adopt, create_cold, new_row, template_or_base,
}

-- What the pool does not touch.
abbrev pub Untouched : {B : Type 0} → World B → World B → Type 0
Untouched w w' = (w'.db ≡ w.db) × (w'.time ≡ w.time) × (w'.readings ≡ w.readings)

module _ {B : Type 0} (sb : SandboxBackend B) where
  take_loop-Untouched :
      (slug : String) (cap : ℕ) (ids : List String) (w : World B)
      → Untouched w (take_loop sb slug cap ids w).1
  unfolding take_loop trigger_refill
  take_loop-Untouched slug cap [] w = (refl, refl, refl)
  take_loop-Untouched slug cap (id ∷ rest) w =
      elim (Bool-cases (is_up (sb.is_running id w.backend).0)) [
        | inl up ↦ rw up (refl, refl, refl)
        | inr down ↦ rw down (take_loop-Untouched slug cap rest _)
      ]

  take-Untouched : (slug : String) (w : World B) → Untouched w (take sb slug w).1
  unfolding take
  take-Untouched slug w = elim (Option-cases (lookup slug w.pool.warm)) [
    | inl e ↦ rw (e, take) (refl, refl, refl)
    | inr (c, e) ↦ rw (e, take) (take_loop-Untouched slug c.cap c.queue w)
  ]

adopt-Untouched :
    {B : Type 0} (a : WarmAdopter B) (id : String) (o : Option String) (w : World B)
    → Untouched w (adopt a id o w).1
adopt-Untouched a id none w = (refl, refl, refl)
adopt-Untouched a id (some native) w = (refl, refl, refl)

module _ {B : Type 0} (api : Api B) where
  pub warm_start-Untouched :
      (b : Bool) (o : Option (WarmAdopter B)) (id slug : String) (w : World B)
      → Untouched w (warm_start api b o id slug w).1
  warm_start-Untouched true (some a) id slug w = ground (
    arith,
    take-Untouched api.sb slug w,
    adopt-Untouched a id (take api.sb slug w).0 (take api.sb slug w).1,
  )
  warm_start-Untouched true none id slug w = (refl, refl, refl)
  warm_start-Untouched false o id slug w = (refl, refl, refl)

  resolve_refuses :
      (name : String) (w : World B) (r : Response) → (resolve api name w).0 ≡ err r → r.status ≢ 201
  unfolding resolve Store.get_template_by_slug
  resolve_refuses name w r e h = ground arith

  resolve-Untouched :
      (name : String) (w : World B)
      → let w' = (resolve api name w).1 in
        (w'.time ≡ w.time)
        × (w'.readings ≡ w.readings)
        × (w'.uuid ≡ w.uuid)
        × (w'.issued ≡ w.issued)
        × (w'.db.sandboxes ≡ w.db.sandboxes)
  unfolding resolve Store.get_template_by_slug
  resolve-Untouched name w = ground arith

  pub resolve_rows :
      (name : String) (w : World B) → (resolve api name w).1.db.sandboxes ≡ w.db.sandboxes
  resolve_rows name w = let (_, _, _, _, rows) = resolve-Untouched name w in rows

  cold_refuses :
      (b : Bool) (id ref : String) (w : World B) (r : Response)
      → (create_cold api b id ref w).0 ≡ err r
      → r.status ≢ 201
  cold_refuses true id ref w r e h = cc
  cold_refuses false id ref w r e h = ground arith

  cold-Untouched :
      (b : Bool) (id ref : String) (w : World B) → Untouched w (create_cold api b id ref w).1
  cold-Untouched true id ref w = (refl, refl, refl)
  cold-Untouched false id ref w = (refl, refl, refl)

  -- With a 201 the response is the record of the new sandbox: its ID is the UUID drawn for the
  -- request, it is running with no paused image, it expires the configured time after the second
  -- reading of the clock, and the table holds it under its ID.
  pub create_sandbox-row_of :
      (template : String) (w : World B)
      → (serve (create_sandbox api template) w).0.status ≡ 201
      → let (r, w') = serve (create_sandbox api template) w in
        (row : Sandbox) × (r.body ≡ sandbox row)
        × (row.id ≡ w.uuid w.issued)
        × (row.status ≡ running)
        × (row.paused_image_id ≡ none)
        × (row.created_at ≡ w.time w.readings)
        × (row.expires_at ≡ w.time (suc w.readings) + api.sandbox_ttl)
        × (row_of row.id w'.db.sandboxes ≡ some row)
  unfolding create_sandbox from_pool World.time_now World.new_uuid
  create_sandbox-row_of template w created =
      elim (Result-cases (resolve api (template_or_base template) w).0) [
        | inr (r, e) ↦ absurd (resolve_refuses (template_or_base template) w r e (rw e at created))
        | inl ((tmpl, ref), e) ↦
            let w1 = (resolve api (template_or_base template) w).1 in
            let id = w1.uuid w1.issued in
            let ws =
              warm_start api api.has_pool (as_warm_adopter api.sb) id tmpl.slug
                (record w1 { issued = suc w1.issued }) in
            elim (Result-cases (create_cold api ws.0 id ref ws.1).0) [
              | inr (r, f) ↦ absurd (cold_refuses ws.0 id ref ws.1 r f (rw (e, f) at created))
              | inl (t, f) ↦
                  let w4 = (create_cold api ws.0 id ref ws.1).1 in
                  let row =
                    new_row api id tmpl.slug (w4.time w4.readings) (w4.time (suc w4.readings)) in
                  elim (Result-cases (Store.save row w4.db).0) [
                    | inr (r, g) ↦ absurd (omega (arith, rw (e, f, g) at created))
                    | inl (u, g) ↦
                        let (time, readings, uuid, issued, rows) =
                          resolve-Untouched (template_or_base template) w in
                        let (same_db, time', readings') =
                          warm_start-Untouched api.has_pool (as_warm_adopter api.sb) id tmpl.slug
                            (record w1 { issued = suc w1.issued }) in
                        let (same_db', time'', readings'') = cold-Untouched ws.0 id ref ws.1 in
                        (
                          row,
                          rw (e, f, g),
                          rw (uuid, issued) refl,
                          refl,
                          refl,
                          rw (readings'', readings', time'', time', readings, time) refl,
                          rw (readings'', readings', time'', time', readings, time) refl,
                          rw (e, f, g) (ground (arith, save-row_of row id w4.db g, str_eq_self id)),
                        )
                  ]
            ]
      ]

  -- With any other answer the table is as it was: no row of it is written, changed or deleted.
  pub create_sandbox_refused :
      (template : String) (w : World B)
      → (serve (create_sandbox api template) w).0.status ≢ 201
      → (serve (create_sandbox api template) w).1.db.sandboxes ≡ w.db.sandboxes
  unfolding create_sandbox from_pool World.time_now World.new_uuid
  create_sandbox_refused template w refused =
      let (time, readings, uuid, issued, rows) = resolve-Untouched (template_or_base template) w in
      elim (Result-cases (resolve api (template_or_base template) w).0) [
        | inr (r, e) ↦ rw e rows
        | inl ((tmpl, ref), e) ↦
            let w1 = (resolve api (template_or_base template) w).1 in
            let id = w1.uuid w1.issued in
            let w2 = record w1 { issued = suc w1.issued } in
            let adopter = as_warm_adopter api.sb in
            let ws = warm_start api api.has_pool adopter id tmpl.slug w2 in
            let (same_db, _, _) = warm_start-Untouched api.has_pool adopter id tmpl.slug w2 in
            let (same_db', _, _) = cold-Untouched ws.0 id ref ws.1 in
            elim (Result-cases (create_cold api ws.0 id ref ws.1).0) [
              | inr (r, f) ↦ rw (e, f, same_db', same_db) rows
              | inl (t, f) ↦
                  let w4 = (create_cold api ws.0 id ref ws.1).1 in
                  let row =
                    new_row api id tmpl.slug (w4.time w4.readings) (w4.time (suc w4.readings)) in
                  elim (Result-cases (Store.save row w4.db).0) [
                    | inr (r, g) ↦ rw (e, f, g, save_failed row w4.db r g, same_db', same_db) rows
                    | inl (u, g) ↦ absurd (refused (rw (e, f, g) refl))
                  ]
            ]
      ]
