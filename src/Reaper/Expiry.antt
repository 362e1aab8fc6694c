-- ===== src/Reaper/Expiry.antt =====
-- Which records the reaper deletes.
use cage.Common.{
  ℕ, String, List, [], ◌∷◌, ◌≡◌, refl, sym, ◌∙◌, subst, inl, inr, Bool-cases, Option, none, some,
  Option-cases, false, arith, str_eq, str_eq_iff, All, All-keep, keep,
}
use cage.Common.Exec.{Error, Result, ok, err}
use cage.Backend.{SandboxBackend, ImageCleaner}
use cage.Store.{
  Sandbox, SandboxStatus, running, stopped, paused, answer, row_of, is_expired, list_expired,
  delete,
}
use cage.Store.Rows.{row_of-delete_row}
use cage.World.{World}
use cage.Reaper.{
  delete_record, drop_record, after_cleanup, reap_running, reap_paused, remove_paused, by_status,
  listed, reap_one, reap_all, reap,
}

-- No listed row has the ID.
abbrev Listed : String → Result Error (List Sandbox) → Type 0
Listed j (err e) = Unit
Listed j (ok rows) = All (λ row. str_eq row.id j ≡ false) rows

module _ {B : Type 0} where
  -- A deletion leaves the row of every other ID.
  delete_record_ne :
      (id j : String) (w : World B)
      → str_eq id j ≡ false
      → row_of j (delete_record id w).db.sandboxes ≡ row_of j w.db.sandboxes
  unfolding delete_record delete
  delete_record_ne id j w ne = ground (arith, row_of-delete_row j id w.db.sandboxes)

  drop_record_ne :
      (id j : String) (w : World B)
      → str_eq id j ≡ false
      → row_of j (drop_record id w).db.sandboxes ≡ row_of j w.db.sandboxes
  unfolding drop_record delete
  drop_record_ne id j w ne = ground (arith, row_of-delete_row j id w.db.sandboxes)

  after_cleanup_ne :
      (r : Result Error (Unit {0})) (id j : String) (w : World B)
      → str_eq id j ≡ false
      → row_of j (after_cleanup r id w).db.sandboxes ≡ row_of j w.db.sandboxes
  after_cleanup_ne (ok x) id j w ne = delete_record_ne id j w ne
  after_cleanup_ne (err e) id j w ne = refl

  remove_paused_ne :
      (cleaner : Option (ImageCleaner B)) (image : Option String) (row : Sandbox) (j : String)
      (w : World B)
      → str_eq row.id j ≡ false
      → row_of j (remove_paused cleaner image row w).db.sandboxes ≡ row_of j w.db.sandboxes
  remove_paused_ne none none row j w ne = drop_record_ne row.id j w ne
  remove_paused_ne (some c) none row j w ne = drop_record_ne row.id j w ne
  remove_paused_ne none (some image) row j w ne = drop_record_ne row.id j w ne
  remove_paused_ne (some c) (some image) row j w ne = after_cleanup_ne _ row.id j _ ne

module _ {B : Type 0} (sb : SandboxBackend B) where
  by_status_ne :
      (s : SandboxStatus) (row : Sandbox) (j : String) (w : World B)
      → str_eq row.id j ≡ false
      → row_of j (by_status sb s row w).db.sandboxes ≡ row_of j w.db.sandboxes
  unfolding reap_running reap_paused
  by_status_ne running row j w ne = after_cleanup_ne _ row.id j _ ne
  by_status_ne paused row j w ne = remove_paused_ne sb.image_cleaner row.paused_image_id row j w ne
  by_status_ne stopped row j w ne = refl

  reap_all_ne :
      (rows : List Sandbox) (j : String) (w : World B)
      → All (λ row. str_eq row.id j ≡ false) rows
      → row_of j (reap_all sb rows w).db.sandboxes ≡ row_of j w.db.sandboxes
  unfolding reap_all reap_one
  reap_all_ne [] j w h = refl
  reap_all_ne (row ∷ rows) j w h =
      reap_all_ne rows j (reap_one sb row w) h.1 ∙ by_status_ne row.status row j w h.0

  listed_ne :
      (r : Result Error (List Sandbox)) (j : String) (w : World B)
      → Listed j r
      → row_of j (listed sb r w).db.sandboxes ≡ row_of j w.db.sandboxes
  listed_ne (err e) j w h = refl
  listed_ne (ok rows) j w h = reap_all_ne rows j w h

-- The IDs of a table differ, as its primary key requires.
abbrev pub IsKeyed : List Sandbox → Type 0
IsKeyed [] = Unit
IsKeyed (row ∷ rows) = All (λ x. str_eq x.id row.id ≡ false) rows × IsKeyed rows

-- The expired rows do not have the ID of a row that has not expired.
expired_ne :
    (now : ℕ) (j : String) (rows : List Sandbox) (row : Sandbox)
    → IsKeyed rows
    → row_of j rows ≡ some row
    → is_expired now row ≡ false
    → All (λ x. str_eq x.id j ≡ false) (keep (is_expired now) rows)
unfolding row_of
expired_ne now j [] row k here live = tt
expired_ne now j (x ∷ rows) row k here live = elim (Bool-cases (str_eq x.id j)) [
  | inl hit ↦
      let same : x ≡ row = ground arith in
      let alive : is_expired now x ≡ false =
        subst (λ y. is_expired now y ≡ false) (sym same) live in
      rw alive (
        All-keep (λ y. str_eq y.id j ≡ false) (is_expired now) rows
          (subst (λ i. All (λ y. str_eq y.id i ≡ false) rows) ((str_eq_iff x.id j).0 hit) k.0))
  | inr miss ↦ kept x miss (expired_ne now j rows row k.1 (rw miss at here) live)
]
  where
    kept :
        (y : Sandbox)
        → str_eq y.id j ≡ false
        → All (λ z. str_eq z.id j ≡ false) (keep (is_expired now) rows)
        → All (λ z. str_eq z.id j ≡ false) (keep (is_expired now) (y ∷ rows))
    kept y m h = ground arith

-- Whatever fails, a reap keeps the record of every sandbox that has not expired: in a table whose
-- IDs differ, its row is the same afterwards.
pub reap_keeps_live :
    {B : Type 0} (sb : SandboxBackend B) (j : String) (row : Sandbox) (w : World B)
    → IsKeyed w.db.sandboxes
    → row_of j w.db.sandboxes ≡ some row
    → is_expired (w.db.clock w.db.statements) row ≡ false
    → row_of j (reap sb w).db.sandboxes ≡ some row
unfolding reap list_expired
reap_keeps_live sb j row w keyed here live = elim (Option-cases (w.db.outage w.db.statements)) [
  | inl up ↦
      rw (up, answer)
        (reap_all_ne sb (keep (is_expired (w.db.clock w.db.statements)) w.db.sandboxes) j _
            (expired_ne (w.db.clock w.db.statements) j w.db.sandboxes row keyed here live)
          ∙ here)
  | inr (e, down) ↦ rw (down, answer) here
]
