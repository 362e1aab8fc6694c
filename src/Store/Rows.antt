-- ===== src/Store/Rows.antt =====
-- Save, Get and Delete against a table that is read by its primary key.
use cage.Common.{
  suc, String, List, [], ◌∷◌, ◌≡◌, refl, subst, inl, inr, Bool-cases, none, some, arith, str_eq,
  str_eq_iff, if◌then◌else◌, All,
}
use cage.Common.Exec.{Error, ok, err, ◌>>=◌}
use cage.Store.{Sandbox, Db, upsert, row_of, delete_row, save, get, delete}

pub row_of-upsert :
    (j : String) (sb : Sandbox) (rows : List Sandbox)
    → row_of j (upsert sb rows) ≡ (if str_eq sb.id j then some sb else row_of j rows)
unfolding row_of upsert
row_of-upsert j sb [] = refl
row_of-upsert j sb (row ∷ rows) = ground (
  arith,
  row_of-upsert j sb rows,
  str_eq_iff row.id sb.id,
  str_eq_iff row.id j,
  str_eq_iff sb.id j,
)

pub row_of-delete_row :
    (j id : String) (rows : List Sandbox)
    → row_of j (delete_row id rows) ≡ (if str_eq id j then none else row_of j rows)
unfolding row_of delete_row
row_of-delete_row j id [] = ground arith
row_of-delete_row j id (row ∷ rows) =
    ground (
      arith,
      row_of-delete_row j id rows,
      str_eq_iff row.id id,
      str_eq_iff row.id j,
      str_eq_iff id j,
    )

-- The row that is found has the ID that was asked for.
pub row_of-id :
    (j : String) (rows : List Sandbox) (sb : Sandbox) → row_of j rows ≡ some sb → sb.id ≡ j
unfolding row_of
row_of-id j [] sb h = cc
row_of-id j (row ∷ rows) sb h = ground (arith, row_of-id j rows sb, str_eq_iff row.id j)

pub All-upsert {ℓ} :
    (P : Sandbox → Type ℓ) (sb : Sandbox) (rows : List Sandbox)
    → P sb
    → All P rows
    → All P (upsert sb rows)
unfolding upsert
All-upsert P sb [] p h = (p, tt)
All-upsert P sb (row ∷ rows) p h = ground (arith, All-upsert P sb rows p h.1)

pub All-row_of {ℓ} :
    (P : Sandbox → Type ℓ) (j : String) (rows : List Sandbox) (sb : Sandbox)
    → All P rows
    → row_of j rows ≡ some sb
    → P sb
unfolding row_of
All-row_of P j [] sb h e = cc
All-row_of P j (row ∷ rows) sb h e = elim (Bool-cases (str_eq row.id j)) [
  | inl hit ↦ let same : row ≡ sb = ground arith in subst P same h.0
  | inr miss ↦ All-row_of P j rows sb h.1 (rw miss at e)
]

-- Where neither statement fails, a Get after a Save returns the saved row under its ID and the row
-- that was there under any other.
pub get-save :
    (sb : Sandbox) (j : String) (db : Db)
    → db.outage db.statements ≡ none
    → db.outage (suc db.statements) ≡ none
    → ((save sb >>= λ _. get j) db).0
      ≡ ok (if str_eq sb.id j then some sb else row_of j db.sandboxes)
unfolding save get
get-save sb j db up up' = ground (arith, row_of-upsert j sb db.sandboxes)

-- A statement that fails leaves the table as it was.
pub save_failed :
    (sb : Sandbox) (db : Db) (e : Error)
    → (save sb db).0 ≡ err e
    → (save sb db).1.sandboxes ≡ db.sandboxes
unfolding save
save_failed sb db e h = ground arith

pub delete_failed :
    (id : String) (db : Db) (e : Error)
    → (delete id db).0 ≡ err e
    → (delete id db).1.sandboxes ≡ db.sandboxes
unfolding delete
delete_failed id db e h = ground arith

pub save-row_of :
    (sb : Sandbox) (j : String) (db : Db)
    → (save sb db).0 ≡ ok tt
    → row_of j (save sb db).1.sandboxes
      ≡ (if str_eq sb.id j then some sb else row_of j db.sandboxes)
unfolding save
save-row_of sb j db h = ground (arith, row_of-upsert j sb db.sandboxes)
