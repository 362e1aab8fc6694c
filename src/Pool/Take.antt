-- ===== src/Pool/Take.antt =====
-- What Take hands out.
use cage.Common.{
  ℕ, suc, String, List, [], ◌∷◌, ◌++◌, ◌≡◌, refl, ap, ◌∙◌, subst, inl, inr, Bool-cases, Option,
  none, some, Option-cases, Bool, true, false,
}
use cage.Common.Dict.{lookup, lookup-insert_self}
use cage.Common.Exec.{Error, Result, ok, err}
use cage.Backend.{SandboxBackend}
use cage.World.{World}
use cage.Pool.{queue_of, trigger_refill, is_up, take_loop, take}

module _ {B : Type 0} (sb : SandboxBackend B) where
  abbrev pub Up : String → B → Type 0
  Up id b = (sb.is_running id b).0 ≡ ok true

  -- The backend's states between the checks: each check of a discarded ID says that it is not up.
  pub data Drained : List String → B → B → Type 0 where
    start : (b : B) → Drained [] b b
    drop :
        (id : String) (dead : List String) (b b' : B)
        → is_up (sb.is_running id b).0 ≡ false
        → Drained dead (sb.is_running id b).1 b'
        → Drained (id ∷ dead) b b'

  -- What a Take returns, and leaves in the channel of its slug, from a channel that holds `ids`.
  pub data Taken (slug : String) (ids : List String) (w : World B)
      : Option String × World B → Type 0 where
    served :
        (dead rest : List String) (id : String) (b : B) (r : Option String × World B)
        → ids ≡ dead ++ id ∷ rest
        → Drained dead w.backend b
        → Up id b
        → r.0 ≡ some id
        → queue_of (lookup slug r.1.pool.warm) ≡ rest
        → r.1.pool_hits ≡ suc w.pool_hits
        → r.1.pool_misses ≡ w.pool_misses
        → Taken slug ids w r
    empty :
        (b : B) (r : Option String × World B)
        → Drained ids w.backend b
        → r.0 ≡ none
        → queue_of (lookup slug r.1.pool.warm) ≡ []
        → r.1.pool_hits ≡ w.pool_hits
        → r.1.pool_misses ≡ suc w.pool_misses
        → Taken slug ids w r

  up_of : (r : Result Error Bool) → is_up r ≡ true → r ≡ ok true
  up_of (ok true) h = refl
  up_of (ok false) h = cc
  up_of (err e) h = cc

  later :
      (slug id : String) (ids : List String) (w y : World B) (r : Option String × World B)
      → is_up (sb.is_running id w.backend).0 ≡ false
      → y.backend ≡ (sb.is_running id w.backend).1
      → y.pool_hits ≡ w.pool_hits
      → y.pool_misses ≡ w.pool_misses
      → Taken slug ids y r
      → Taken slug (id ∷ ids) w r
  later slug id ids w y r down same hits misses (served dead rest i b _ e drained up got left h m) =
      served (id ∷ dead) rest i b r (ap (◌∷◌ id) e)
        (drop id dead w.backend b down (subst (λ x. Drained dead x b) same drained)) up got left
        (h ∙ ap suc hits) (m ∙ misses)
  later slug id ids w y r down same hits misses (empty b _ drained got none_left h m) =
      empty b r (drop id ids w.backend b down (subst (λ x. Drained ids x b) same drained)) got
        none_left (h ∙ hits) (m ∙ ap suc misses)

  take_loop-Taken :
      (slug : String) (cap : ℕ) (ids : List String) (w : World B)
      → queue_of (lookup slug w.pool.warm) ≡ ids
      → Taken slug ids w (take_loop sb slug cap ids w)
  unfolding take_loop trigger_refill
  take_loop-Taken slug cap [] w now = empty w.backend _ (start w.backend) refl now refl refl
  take_loop-Taken slug cap (id ∷ rest) w now =
      elim (Bool-cases (is_up (sb.is_running id w.backend).0)) [
        | inl up ↦ rw up (
            served [] rest id w.backend _ refl (start w.backend) (up_of _ up) refl
              (ap queue_of
                (lookup-insert_self slug (record { queue = rest; cap = cap }) w.pool.warm))
              refl refl)
        | inr down ↦ rw down (
            later slug id rest w _ _ down refl refl refl (
              take_loop-Taken slug cap rest _ (
                ap queue_of
                  (lookup-insert_self slug (record { queue = rest; cap = cap }) w.pool.warm))))
      ]

  -- A Take receives IDs in the order in which they were put in, discards those that the backend
  -- does not report as running, and stops at the first that it does: that ID is returned, the ones
  -- behind it stay in the channel, and one hit is counted. If none is running the channel is used
  -- up, nothing is returned, and one miss is counted.
  pub take-Taken :
      (slug : String) (w : World B)
      → Taken slug (queue_of (lookup slug w.pool.warm)) w (take sb slug w)
  unfolding take
  take-Taken slug w = elim (Option-cases (lookup slug w.pool.warm)) [
    | inl e ↦ rw (e, take) (empty w.backend _ (start w.backend) refl (ap queue_of e) refl refl)
    | inr (c, e) ↦ rw (e, take) (take_loop-Taken slug c.cap c.queue w (ap queue_of e))
  ]
