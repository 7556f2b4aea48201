-- ===== src/Database/Statements.antt =====
-- SQL statements over lists of rows, one function for each form of statement that the source sends.
-- A statement goes to the pool, where it commits by itself, or to the request's transaction.
use Prim.Native.String.{count}
use kromer.Prelude.{
  ℕ, ◌+◌, ◌^◌, ℤ, pos, pos_part, neg_part, ltb_ℤ, String, Option, none, some, List, [], ◌∷◌, Bool,
  true, false, not, ◌==◌, codes, ◌&&◌, leb, ltb, if◌then◌else◌, take, drop, find, update_where,
}
use kromer.Errors.{SqlxError, row_not_found, database}
use kromer.Database.{Tables, Serials}
use kromer.Exec.{Outcome, ok, err, panic, World, Exec, ◌>>◌, current, trip, replied}

pub data Executor : Type 0 where
  pool tx : Executor

abbrev pub Written : Type 0 → Type 0
Written A = Outcome SqlxError (A × Tables)

-- What a statement that did its work on the tables leaves.
abbrev pub settle : {A : Type 0} → Executor → Written A → Exec SqlxError A
settle pool (ok (a, t)) w = (ok a, record w { committed = t })
settle tx (ok (a, t)) w = (ok a, record w { working = some t })
settle _ (err e) w = (err e, w)
settle _ panic w = (panic, w)

abbrev pub seen : Executor → World → Tables
seen pool w = w.committed
seen tx w = current w

module _ {A : Type 0} where
  -- SELECT
  unfoldable pub query : Executor → (Tables → Outcome SqlxError A) → Exec SqlxError A
  query ex body = trip >> λ w. (body (seen ex w), w)

  -- UPDATE, at the transaction's time
  unfoldable pub update : Executor → (ℕ → Tables → Written A) → Exec SqlxError A
  update ex body = trip >> replied (λ w. settle ex (body w.now (seen ex w)) w)

  -- INSERT: the identifier is drawn whether or not the row is accepted.
  unfoldable pub insert :
      Executor → (Serials → Serials) → (Serials → ℕ → Tables → Written A) → Exec SqlxError A
  insert ex draw body =
      trip
      >> replied (λ w.
        settle ex (body w.serials w.now (seen ex w)) (record w { serials = draw w.serials }))

  -- A statement refused by a constraint, or one that is accepted.
  abbrev pub check : Bool → A → Outcome SqlxError A
  check true a = ok a
  check false a = err database

-- `LIMIT l OFFSET o`; the server refuses a negative number.
unfoldable pub page : {A : Type 0} → ℤ → ℤ → List A → Outcome SqlxError (List A)
page limit offset rows =
    if ltb_ℤ limit (pos 0)
    then err database
    else if ltb_ℤ offset (pos 0)
    then err database
    else ok (take (pos_part limit) (drop (pos_part offset) rows))

-- `i64::clamp(1, 1000)`
unfoldable pub clamp : ℤ → ℤ
clamp l = if ltb_ℤ l (pos 1) then pos 1 else if ltb_ℤ (pos 1000) l then pos 1000 else l

-- `ORDER BY`: insertion before the first row that must not come earlier.
module _ {A : Type 0} (before : A → A → Bool) where
  unfoldable pub place : A → List A → List A
  place x [] = x ∷ []
  place x (y ∷ ys) = if before x y then x ∷ y ∷ ys else y ∷ place x ys

  unfoldable pub order_by : List A → List A
  unfolding place
  order_by [] = []
  order_by (x ∷ xs) = place x (order_by xs)

-- A NUMERIC(16, 2) column holds fewer than 10^16 hundredths, of either sign.
unfoldable pub fits_numeric : ℤ → Bool
fits_numeric v = ltb (pos_part v + neg_part v) (10 ^ 16)

-- PostgreSQL has no texts with the character 0.
abbrev pub storable : List ℕ → Bool
storable [] = true
storable (c ∷ cs) = not (c == 0) && storable cs

-- CHAR(n) and VARCHAR(n)
unfoldable pub fits_text : ℕ → String → Bool
fits_text n s = leb (count s) n && storable (codes s)

unfoldable pub fits_optional : ℕ → Option String → Bool
unfolding fits_text
fits_optional n none = true
fits_optional n (some s) = fits_text n s

-- `UPDATE … SET … WHERE … RETURNING *`, read by `fetch_one`: the rows that match are rewritten if
-- all of them fit their columns, and the first of them is returned.
module _ {A : Type 0} (fits matches : A → Bool) (f : A → A) where
  abbrev pub all_fit : List A → Bool
  all_fit [] = true
  all_fit (r ∷ rows) = (if matches r then fits (f r) else true) && all_fit rows

  unfoldable pub update_returning : List A → Outcome SqlxError (A × List A)
  update_returning rows =
      if all_fit rows
      then (elim (find matches rows) [
        | none ↦ err row_not_found
        | some r ↦ ok (f r, update_where matches f rows)
      ])
      else err database

-- The result of an update, with the rewritten rows put back into the tables.
abbrev pub put_rows : {A : Type 0} → (List A → Tables) → Outcome SqlxError (A × List A) → Written A
put_rows put (ok (r, rows)) = ok (r, put rows)
put_rows put (err e) = err e
put_rows put panic = panic
