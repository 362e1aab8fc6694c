-- ===== src/Store/Queries.antt =====
-- What List, ListTemplate and ListExpired return.
use mathlib.Core.List.{Perm}
use mathlib.Core.List.Perm
use cage.Common.{ℕ, ◌≤◌, List, [], ◌∷◌, ◌≡◌, none, arith, All, ltb, inl, inr, Bool-cases}
use cage.Common.Exec.{ok}
use cage.Store.{Sandbox, Db, by_created, newest_first, forget_image, without_image, list, answer}

-- Each row was created no earlier than the next ones.
abbrev pub IsNewestFirst : List Sandbox → Type 0
IsNewestFirst [] = Unit
IsNewestFirst (row ∷ rows) = All (λ x. x.created_at ≤ row.created_at) rows × IsNewestFirst rows

pub All-by_created {ℓ} :
    (P : Sandbox → Type ℓ) (sb : Sandbox) (rows : List Sandbox)
    → P sb
    → All P rows
    → All P (by_created sb rows)
unfolding by_created
All-by_created P sb [] p h = (p, tt)
All-by_created P sb (row ∷ rows) p h = ground (arith, All-by_created P sb rows p h.1)

weaken :
    (m n : ℕ) (rows : List Sandbox)
    → m ≤ n
    → All (λ x. x.created_at ≤ m) rows
    → All (λ x. x.created_at ≤ n) rows
weaken m n [] h a = tt
weaken m n (row ∷ rows) h a = (omega arith, weaken m n rows h a.1)

by_created-IsNewestFirst :
    (sb : Sandbox) (rows : List Sandbox) → IsNewestFirst rows → IsNewestFirst (by_created sb rows)
unfolding by_created
by_created-IsNewestFirst sb [] h = (tt, tt)
by_created-IsNewestFirst sb (row ∷ rows) h = elim (Bool-cases (ltb sb.created_at row.created_at)) [
  | inl later ↦ rw later (
    All-by_created (λ x. x.created_at ≤ row.created_at) sb rows (ground arith) h.0,
    by_created-IsNewestFirst sb rows h.1,
  )
  | inr first ↦
      rw first ((ground arith, weaken row.created_at sb.created_at rows (ground arith) h.0), h)
]

newest_first-IsNewestFirst : (rows : List Sandbox) → IsNewestFirst (newest_first rows)
unfolding newest_first
newest_first-IsNewestFirst [] = tt
newest_first-IsNewestFirst (row ∷ rows) =
    by_created-IsNewestFirst row (newest_first rows) (newest_first-IsNewestFirst rows)

by_created-perm : (sb : Sandbox) (rows : List Sandbox) → Perm (by_created sb rows) (sb ∷ rows)
unfolding by_created
by_created-perm sb [] = Perm.refl _
by_created-perm sb (row ∷ rows) = elim (Bool-cases (ltb sb.created_at row.created_at)) [
  | inl later ↦
      rw later (Perm.trans (Perm.cons row (by_created-perm sb rows)) (Perm.swap sb row rows))
  | inr first ↦ rw first (Perm.refl _)
]

newest_first-perm : (rows : List Sandbox) → Perm (newest_first rows) rows
unfolding newest_first
newest_first-perm [] = Perm.refl _
newest_first-perm (row ∷ rows) =
    Perm.trans (by_created-perm row (newest_first rows)) (Perm.cons row (newest_first-perm rows))

All-without_image :
    (n : ℕ) (rows : List Sandbox)
    → All (λ x. x.created_at ≤ n) rows
    → All (λ x. x.created_at ≤ n) (without_image rows)
All-without_image n [] a = tt
All-without_image n (row ∷ rows) a = (a.0, All-without_image n rows a.1)

without_image-IsNewestFirst :
    (rows : List Sandbox) → IsNewestFirst rows → IsNewestFirst (without_image rows)
without_image-IsNewestFirst [] h = tt
without_image-IsNewestFirst (row ∷ rows) h =
    (All-without_image row.created_at rows h.0, without_image-IsNewestFirst rows h.1)

-- Where the statement does not fail, List returns every row of the table once, newest first, each
-- with a nil paused image.
pub list-perm :
    (db : Db)
    → db.outage db.statements ≡ none
    → (rows : List Sandbox) × ((list db).0 ≡ ok rows)
      × IsNewestFirst rows
      × Perm rows (without_image db.sandboxes)
unfolding list
list-perm db up = (
  without_image (newest_first db.sandboxes),
  rw (up, answer),
  without_image-IsNewestFirst _ (newest_first-IsNewestFirst db.sandboxes),
  Perm.map forget_image (newest_first-perm db.sandboxes),
)
