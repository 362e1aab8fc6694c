-- ===== src/Reconcile/Boot.antt =====
-- Which records Reconcile deletes.
use mathlib.Core.Bool.{◌&&◌, ◌||◌}
use cage.Common.{
  ℕ, String, List, [], ◌∷◌, ◌≡◌, refl, sym, ap, ◌∙◌, ◌⊎◌, inl, inr, Bool-cases, Option, none, some,
  Option-cases, Bool, true, false, arith, str_eq, str_eq_iff, All, if◌then◌else◌, ◌≢◌,
}
use cage.Common.Dict.{lookup}
use cage.Common.Exec.{Error, Result, ok, err}
use cage.Backend.{SandboxBackend}
use cage.Docker.Client.{DockerClient, Tar}
use cage.Docker.Adapter
use cage.Docker.Adapter.{Adapter}
use cage.Store
use cage.Store.{
  Sandbox, SandboxStatus, running, stopped, paused, Db, answer, row_of, list, delete, newest_first,
  by_created, without_image, forget_image,
}
use cage.Store.Rows.{row_of-delete_row}
use cage.Store.Queries.{All-by_created}
use cage.Lock.{DistributedLock, try_acquire}
use cage.World.{World}
use cage.Reaper.Expiry.{IsKeyed}
use cage.Reaper.Exact.{IsUp}
use cage.Reconcile.{checked, reconcile_one, reconcile_all, elected, reconcile}

-- The row has another ID, or its status is not running.
abbrev Spared : String → Sandbox → Type 0
Spared j x = (str_eq x.id j ≡ false) ⊎ (Store.is_running x.status ≡ false)

All-newest_first :
    (P : Sandbox → Type 0) (rows : List Sandbox) → All P rows → All P (newest_first rows)
unfolding newest_first
All-newest_first P [] h = tt
All-newest_first P (row ∷ rows) h =
    All-by_created P row (newest_first rows) h.0 (All-newest_first P rows h.1)

Spared-without_image :
    (j : String) (rows : List Sandbox) → All (Spared j) rows → All (Spared j) (without_image rows)
Spared-without_image j [] h = tt
Spared-without_image j (row ∷ rows) h = (h.0, Spared-without_image j rows h.1)

Spared-row_of :
    (j : String) (rows : List Sandbox) (row : Sandbox)
    → IsKeyed rows
    → row_of j rows ≡ some row
    → Store.is_running row.status ≡ false
    → All (Spared j) rows
unfolding row_of
Spared-row_of j [] row k here idle = tt
Spared-row_of j (x ∷ rows) row k here idle = elim (Bool-cases (str_eq x.id j)) [
  | inl hit ↦ (inr (ground arith), others rows ((str_eq_iff x.id j).0 hit) k.0)
  | inr miss ↦ (inl miss, Spared-row_of j rows row k.1 (rw miss at here) idle)
]
  where
    others :
        (ys : List Sandbox) {i : String}
        → i ≡ j
        → All (λ y. str_eq y.id i ≡ false) ys
        → All (Spared j) ys
    others [] e h = tt
    others (y ∷ ys) e h = (inl (rw (sym e) h.0), others ys e h.1)

module _ {B : Type 0} (sb : SandboxBackend B) where
  checked_ne :
      (r : Result Error Bool) (id j : String) (w : World B)
      → str_eq id j ≡ false
      → row_of j (checked sb r id w).db.sandboxes ≡ row_of j w.db.sandboxes
  unfolding delete
  checked_ne (err e) id j w ne = refl
  checked_ne (ok true) id j w ne = refl
  checked_ne (ok false) id j w ne = ground (arith, row_of-delete_row j id w.db.sandboxes)

  reconcile_one-Spared :
      (row : Sandbox) (j : String) (w : World B)
      → Spared j row
      → row_of j (reconcile_one sb row w).db.sandboxes ≡ row_of j w.db.sandboxes
  unfolding reconcile_one
  reconcile_one-Spared row j w (inr idle) = rw idle
  reconcile_one-Spared row j w (inl ne) = elim (Bool-cases (Store.is_running row.status)) [
    | inl active ↦ rw active (checked_ne _ row.id j _ ne)
    | inr idle ↦ rw idle
  ]

  reconcile_all-Spared :
      (rows : List Sandbox) (j : String) (w : World B)
      → All (Spared j) rows
      → row_of j (reconcile_all sb rows w).db.sandboxes ≡ row_of j w.db.sandboxes
  unfolding reconcile_all
  reconcile_all-Spared [] j w h = refl
  reconcile_all-Spared (row ∷ rows) j w h =
      reconcile_all-Spared rows j (reconcile_one sb row w) h.1 ∙ reconcile_one-Spared row j w h.0

  elected-Spared :
      (r : Result Error Bool) (lock : DistributedLock) (j : String) (w : World B)
      → All (Spared j) w.db.sandboxes
      → row_of j (elected sb r lock w).1.db.sandboxes ≡ row_of j w.db.sandboxes
  unfolding list
  elected-Spared (err e) lock j w h = refl
  elected-Spared (ok false) lock j w h = refl
  elected-Spared (ok true) lock j w h = elim (Option-cases (w.db.outage w.db.statements)) [
    | inl up ↦
        rw (up, answer)
          (reconcile_all-Spared (without_image (newest_first w.db.sandboxes)) j _
            (Spared-without_image j _ (All-newest_first (Spared j) w.db.sandboxes h)))
    | inr (e, down) ↦ rw (down, answer)
  ]

  -- Whatever fails, Reconcile keeps the record of every sandbox that is not recorded as running: in
  -- a table whose IDs differ, its row is the same afterwards.
  pub reconcile_keeps_idle :
      (lock : DistributedLock) (j : String) (row : Sandbox) (w : World B)
      → IsKeyed w.db.sandboxes
      → row_of j w.db.sandboxes ≡ some row
      → row.status ≢ running
      → row_of j (reconcile sb lock w).1.db.sandboxes ≡ some row
  unfolding reconcile
  reconcile_keeps_idle lock j row w keyed here idle =
      elected-Spared _ lock j _ (Spared-row_of j w.db.sandboxes row keyed here (ground arith))
      ∙ here

-- The rows of one ID that are recorded as running.
abbrev marks : String → Sandbox → Bool
marks j x = str_eq x.id j && Store.is_running x.status

abbrev marked : String → List Sandbox → Bool
marked j [] = false
marked j (x ∷ rows) = let rest = marked j rows in marks j x || rest

marked-by_created :
    (j : String) (x : Sandbox) (rows : List Sandbox)
    → marked j (by_created x rows) ≡ (marks j x || marked j rows)
unfolding by_created
marked-by_created j x [] = refl
marked-by_created j x (row ∷ rows) = ground (arith, marked-by_created j x rows)

marked-newest_first :
    (j : String) (rows : List Sandbox) → marked j (newest_first rows) ≡ marked j rows
unfolding newest_first
marked-newest_first j [] = refl
marked-newest_first j (row ∷ rows) =
    marked-by_created j row (newest_first rows)
    ∙ ap (λ b. marks j row || b) (marked-newest_first j rows)

marked-without_image :
    (j : String) (rows : List Sandbox) → marked j (without_image rows) ≡ marked j rows
marked-without_image j [] = refl
marked-without_image j (row ∷ rows) = ap (λ b. marks j row || b) (marked-without_image j rows)

marked-row_of :
    (j : String) (rows : List Sandbox) (row : Sandbox)
    → row_of j rows ≡ some row
    → row.status ≡ running
    → marked j rows ≡ true
unfolding row_of
marked-row_of j [] row here active = cc
marked-row_of j (x ∷ rows) row here active = elim (Bool-cases (str_eq x.id j)) [
  | inl hit ↦ let same : x ≡ row = ground arith in rw (hit, same, active)
  | inr miss ↦ rw miss (marked-row_of j rows row (rw miss at here) active)
]

module _ {D A : Type 0} (docker : DockerClient D A) (tar : Tar A) where
  reconcile_one_forgets :
      (row : Sandbox) (j : String) (w : World (Adapter D))
      → w.backend.containers ≡ []
      → IsUp w.db
      → let w' = reconcile_one (Adapter.backend docker tar) row w in
        (row_of j w'.db.sandboxes ≡ (if marks j row then none else row_of j w.db.sandboxes))
        × (w'.db.outage ≡ w.db.outage)
        × (w'.backend.containers ≡ [])
  unfolding reconcile_one Adapter.is_running lookup delete
  reconcile_one_forgets row j w boot up =
      ground (arith, up w.db.statements, row_of-delete_row j row.id w.db.sandboxes)

  reconcile_all_forgets :
      (rows : List Sandbox) (j : String) (w : World (Adapter D))
      → w.backend.containers ≡ []
      → IsUp w.db
      → row_of j (reconcile_all (Adapter.backend docker tar) rows w).db.sandboxes
        ≡ (if marked j rows then none else row_of j w.db.sandboxes)
  unfolding reconcile_all
  reconcile_all_forgets [] j w boot up = refl
  reconcile_all_forgets (row ∷ rows) j w boot up =
      let (gone, same, still) = reconcile_one_forgets row j w boot up in
      let rest =
        reconcile_all_forgets rows j (reconcile_one (Adapter.backend docker tar) row w) still
          (λ n. ap (λ (f : ℕ → Option Error). f n) same ∙ up n) in
      ground (arith, rest, gone)

  -- On the Docker backend the map of containers is empty when the server starts. If it then wins
  -- the lock and the database answers, Reconcile deletes the record of every running sandbox,
  -- whatever containers the daemon still runs.
  pub reconcile_forgets_running :
      (lock : DistributedLock) (j : String) (row : Sandbox) (w : World (Adapter D))
      → w.backend.containers ≡ []
      → IsUp w.db
      → (try_acquire lock w.redis).0 ≡ ok true
      → row_of j w.db.sandboxes ≡ some row
      → row.status ≡ running
      → row_of j (reconcile (Adapter.backend docker tar) lock w).1.db.sandboxes ≡ none
  unfolding reconcile list
  reconcile_forgets_running lock j row w boot up wins here active =
      rw (wins, up w.db.statements, answer)
        (reconcile_all_forgets (without_image (newest_first w.db.sandboxes)) j _ boot up
          ∙ ap (λ (b : Bool). if b then none else row_of j w.db.sandboxes)
              (marked-without_image j (newest_first w.db.sandboxes)
                ∙ marked-newest_first j w.db.sandboxes
                ∙ marked-row_of j w.db.sandboxes row here active))
