-- ===== src/Reaper/Exact.antt =====
-- That a reap in which nothing fails deletes the expired records and no others.
use cage.Common.{
  ℕ, suc, String, List, [], ◌∷◌, ◌≡◌, refl, ap, ◌∙◌, subst, inl, inr, Bool-cases, Option, none,
  some, Bool, true, false, arith, str_eq, str_eq_iff, All, All-keep, keep, if◌then◌else◌, ◌≢◌,
}
use cage.Common.Exec.{Error, ok}
use cage.Backend.{SandboxBackend, ImageCleaner}
use cage.Store.{
  Sandbox, SandboxStatus, running, stopped, paused, Db, answer, row_of, is_expired, list_expired,
  delete,
}
use cage.Store.Rows.{row_of-delete_row}
use cage.World.{World}
use cage.Reaper.{
  delete_record, drop_record, reap_running, reap_paused, remove_paused, by_status, reap_one,
  reap_all, reap,
}
use cage.Reaper.Expiry.{IsKeyed}

abbrev pub IsUp : Db → Type 0
IsUp db = (n : ℕ) → db.outage n ≡ none

abbrev has_id : String → List Sandbox → Bool
has_id j [] = false
has_id j (row ∷ rows) = let rest = has_id j rows in if str_eq row.id j then true else rest

-- The rows of a table without those of one ID, as seen by any ID.
abbrev Deleted : {B : Type 0} → String → String → World B → World B → Type 0
Deleted id j w w' =
    (row_of j w'.db.sandboxes ≡ (if str_eq id j then none else row_of j w.db.sandboxes))
    × (w'.db.outage ≡ w.db.outage)

module _ {B : Type 0} where
  delete_record-Deleted :
      (id j : String) (w : World B) → IsUp w.db → Deleted id j w (delete_record id w)
  unfolding delete_record delete
  delete_record-Deleted id j w up =
      ground (arith, up w.db.statements, row_of-delete_row j id w.db.sandboxes)

  drop_record-Deleted :
      (id j : String) (w : World B) → IsUp w.db → Deleted id j w (drop_record id w)
  unfolding drop_record delete
  drop_record-Deleted id j w up =
      ground (arith, up w.db.statements, row_of-delete_row j id w.db.sandboxes)

module _ {B : Type 0} (sb : SandboxBackend B) where
  abbrev pub Cleans : Option (ImageCleaner B) → Option String → B → Type 0
  Cleans (some c) (some image) b = (c.remove_image image b).0 ≡ ok tt
  Cleans _ _ b = Unit

  -- The backend does what the reaper asks of it for one record.
  abbrev pub Succeeds : SandboxStatus → Sandbox → B → Type 0
  Succeeds running row b = (sb.kill_sandbox row.id b).0 ≡ ok tt
  Succeeds paused row b = Cleans sb.image_cleaner row.paused_image_id b
  Succeeds stopped row b = Unit

  -- Each kill and each removal of an image that a reap of the records makes succeeds, in the state
  -- in which the reap makes it.
  abbrev pub AllSucceed : List Sandbox → World B → Type 0
  AllSucceed [] w = Unit
  AllSucceed (row ∷ rows) w =
      Succeeds row.status row w.backend × AllSucceed rows (reap_one sb row w)

  remove_paused-Deleted :
      (cleaner : Option (ImageCleaner B)) (image : Option String) (row : Sandbox) (j : String)
      (w : World B)
      → Cleans cleaner image w.backend
      → IsUp w.db
      → Deleted row.id j w (remove_paused cleaner image row w)
  remove_paused-Deleted none none row j w e up = drop_record-Deleted row.id j w up
  remove_paused-Deleted (some c) none row j w e up = drop_record-Deleted row.id j w up
  remove_paused-Deleted none (some image) row j w e up = drop_record-Deleted row.id j w up
  remove_paused-Deleted (some c) (some image) row j w e up =
      rw e (delete_record-Deleted row.id j _ up)

  by_status-Deleted :
      (s : SandboxStatus) (row : Sandbox) (j : String) (w : World B)
      → s ≢ stopped
      → Succeeds s row w.backend
      → IsUp w.db
      → Deleted row.id j w (by_status sb s row w)
  unfolding reap_running reap_paused
  by_status-Deleted running row j w active e up = rw e (delete_record-Deleted row.id j _ up)
  by_status-Deleted paused row j w active e up =
      remove_paused-Deleted sb.image_cleaner row.paused_image_id row j w e up
  by_status-Deleted stopped row j w active e up = absurd (active refl)

  reap_all-Deleted :
      (rows : List Sandbox) (j : String) (w : World B)
      → All (λ row. row.status ≢ stopped) rows
      → AllSucceed rows w
      → IsUp w.db
      → row_of j (reap_all sb rows w).db.sandboxes
        ≡ (if has_id j rows then none else row_of j w.db.sandboxes)
  unfolding reap_all reap_one
  reap_all-Deleted [] j w active e up = refl
  reap_all-Deleted (row ∷ rows) j w active e up =
      let (gone, same) = by_status-Deleted row.status row j w active.0 e.0 up in
      let rest =
        reap_all-Deleted rows j (reap_one sb row w) active.1 e.1
          (λ n. ap (λ (f : ℕ → Option Error). f n) same ∙ up n) in
      ground (arith, rest, gone)

has_id-none :
    (j : String) (rows : List Sandbox)
    → All (λ row. str_eq row.id j ≡ false) rows
    → has_id j rows ≡ false
has_id-none j [] h = refl
has_id-none j (row ∷ rows) h = rw h.0 (has_id-none j rows h.1)

abbrev expired_of : ℕ → Option Sandbox → Bool
expired_of now none = false
expired_of now (some row) = is_expired now row

has_id-keep :
    (now : ℕ) (j : String) (rows : List Sandbox)
    → IsKeyed rows
    → has_id j (keep (is_expired now) rows) ≡ expired_of now (row_of j rows)
unfolding row_of
has_id-keep now j [] k = refl
has_id-keep now j (x ∷ rows) k = elim (Bool-cases (str_eq x.id j)) [
  | inl hit ↦
      let others : All (λ y. str_eq y.id j ≡ false) rows =
        subst (λ i. All (λ y. str_eq y.id i ≡ false) rows) ((str_eq_iff x.id j).0 hit) k.0 in
      let rest =
        has_id-none j (keep (is_expired now) rows)
          (All-keep (λ y. str_eq y.id j ≡ false) (is_expired now) rows others) in
      rw hit (ended x hit rest)
  | inr miss ↦ rw miss (passed x miss (has_id-keep now j rows k.1))
]
  where
    ended :
        (y : Sandbox)
        → str_eq y.id j ≡ true
        → has_id j (keep (is_expired now) rows) ≡ false
        → has_id j (keep (is_expired now) (y ∷ rows)) ≡ is_expired now y
    ended y h e = elim (Bool-cases (is_expired now y)) [
      | inl old ↦ rw (old, h)
      | inr live ↦ rw (live, e)
    ]

    passed :
        (y : Sandbox)
        → str_eq y.id j ≡ false
        → has_id j (keep (is_expired now) rows) ≡ expired_of now (row_of j rows)
        → has_id j (keep (is_expired now) (y ∷ rows)) ≡ expired_of now (row_of j rows)
    passed y h e = elim (Bool-cases (is_expired now y)) [
      | inl old ↦ rw (old, h) e
      | inr live ↦ rw live e
    ]

expired-active :
    (now : ℕ) (rows : List Sandbox) → All (λ row. row.status ≢ stopped) (keep (is_expired now) rows)
expired-active now [] = tt
expired-active now (x ∷ rows) = elim (Bool-cases (is_expired now x)) [
  | inl old ↦ rw old (still now x old, expired-active now rows)
  | inr live ↦ rw live (expired-active now rows)
]
  where
    still : (n : ℕ) (y : Sandbox) → is_expired n y ≡ true → y.status ≢ stopped
    still n y old e = ground arith

-- The records that a reap of a table takes, and the state in which it starts on them.
abbrev pub expired_rows : {B : Type 0} → World B → List Sandbox
expired_rows w = keep (is_expired (w.db.clock w.db.statements)) w.db.sandboxes

abbrev pub queried : {B : Type 0} → World B → World B
queried w = record w { db = record w.db { statements = suc w.db.statements } }

-- Where the database does not fail and the backend does each kill and each removal that the reap
-- asks for, a reap of a table whose IDs differ deletes exactly the records that are expired, running
-- or paused, by the time of its query: every other record stays as it was.
pub reap_exact :
    {B : Type 0} (sb : SandboxBackend B) (j : String) (w : World B)
    → AllSucceed sb (expired_rows w) (queried w)
    → IsUp w.db
    → IsKeyed w.db.sandboxes
    → row_of j (reap sb w).db.sandboxes ≡ (
        if expired_of (w.db.clock w.db.statements) (row_of j w.db.sandboxes)
        then none
        else row_of j w.db.sandboxes)
unfolding reap list_expired
reap_exact sb j w succeed up keyed =
    let now = w.db.clock w.db.statements in
    rw (up w.db.statements, answer)
      (reap_all-Deleted sb (expired_rows w) j _ (expired-active now w.db.sandboxes) succeed up
        ∙ ap (λ (b : Bool). if b then none else row_of j w.db.sandboxes)
            (has_id-keep now j w.db.sandboxes keyed))
