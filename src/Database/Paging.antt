-- ===== src/Database/Paging.antt =====
-- The pages of `LIMIT … OFFSET …` with a limit clamped to 1 … 1000, as every listing of
-- src/database/*.rs asks for them.
use kromer.Prelude.{
  ℕ, ◌≤◌, ℤ, pos, pos_part, ltb_ℤ, List, length, take, drop, length-take-le, Bool, true, false,
  arith, if◌then◌else◌,
}
use kromer.Database.{Tables, PaginationParams}
use kromer.Database.Names as Names
use kromer.Database.Names.{all_unpaid}
use kromer.Database.Statements.{Executor, page, clamp, query, seen}
use kromer.Database.Transactions.Listing.{fetch_all_no_mined}
use kromer.Database.Wallets.Listing.{fetch_richest}
use kromer.Errors.{SqlxError, database}
use kromer.Exec.{from_sqlx, Outcome, ok, err, panic, World, trip, sqlx_to_database}
use kromer.Exec.Ensures.{After, Ensures, Ensures-bind, Ensures-map_err}

clamp-bounds : (l : ℤ) → (1 ≤ pos_part (clamp l)) × (pos_part (clamp l) ≤ 1000)
unfolding clamp
clamp-bounds l = (ground arith, ground arith)

-- The rows of a page, none where the server refuses.
abbrev pub AtMost : {A : Type 0} → ℕ → Outcome SqlxError (List A) → Type 0
AtMost n (ok rows) = length rows ≤ n
AtMost n (err _) = Unit
AtMost n panic = Unit

module _ {A : Type 0} (rows : List A) where
  page-limit :
      (limit offset : ℤ) (a b : Bool) (m n : ℕ)
      → m ≤ 1000
      → AtMost 1000
          (if a then err database else if b then err database else ok (take m (drop n rows)))
  page-limit limit offset true b m n h = tt
  page-limit limit offset false true m n h = tt
  page-limit limit offset false false m n h = omega (arith, h, length-take-le m (drop n rows))

  -- Whatever limit and offset a client asks for, a listing answers with at most 1000 rows.
  pub page-AtMost : (limit offset : ℤ) → AtMost 1000 (page (clamp limit) offset rows)
  unfolding page
  page-AtMost limit offset =
      page-limit limit offset (ltb_ℤ (clamp limit) (pos 0)) (ltb_ℤ offset (pos 0))
        (pos_part (clamp limit)) (pos_part offset) ((clamp-bounds limit).1)

-- An answer of at most `n` rows, or none.
abbrev pub AnswersAtMost : {E A : Type 0} → ℕ → Outcome E (List A) × World → Type 0
AnswersAtMost n (ok rows, w) = length rows ≤ n
AnswersAtMost n (err _, w) = Unit
AnswersAtMost n (panic, w) = Unit

module _ {A : Type 0} (body : Tables → Outcome SqlxError (List A)) where
  read_rows :
      (r : Outcome SqlxError (List A)) (w : World)
      → AtMost 1000 r
      → After (λ rows _. length rows ≤ 1000) (λ _. Unit) (r, w)
  read_rows (ok rows) w h = h
  read_rows (err e) w h = tt
  read_rows panic w h = tt

  query-AtMost :
      (ex : Executor)
      → ((t : Tables) → AtMost 1000 (body t))
      → Ensures
          (λ _. Unit)
          (λ rows _. length rows ≤ 1000)
          (λ _. Unit)
          (sqlx_to_database (query ex body))
  unfolding query
  query-AtMost ex h = Ensures-map_err from_sqlx _ (
      Ensures-bind _ _ (record { at = λ w p. any_end (trip w) })
        λ _. record { at = λ w p. read_rows (body (seen ex w)) w (h (seen ex w)) })
    where
      any_end : (r : Outcome SqlxError (Unit {0}) × World) → After (λ _ _. Unit) (λ _. Unit) r
      any_end (ok a, w) = tt
      any_end (err e, w) = tt
      any_end (panic, w) = tt

module _ {E A : Type 0} where
  answered :
      (r : Outcome E (List A) × World)
      → After (λ rows _. length rows ≤ 1000) (λ _. Unit) r
      → AnswersAtMost 1000 r
  answered (ok rows, w) h = h
  answered (err e, w) h = tt
  answered (panic, w) h = tt

-- Whatever limit and offset a client asks for, the lists of the richest wallets, of the names and of
-- the unpaid names, and the list of transactions, answer with at most 1000 rows.
pub listings-AnswersAtMost :
    (ex : Executor) (limit offset : ℤ) (params : PaginationParams) (w : World)
    → AnswersAtMost 1000 (fetch_richest ex limit offset w)
      × (AnswersAtMost 1000 (Names.fetch_all ex limit offset w)
          × (AnswersAtMost 1000 (all_unpaid ex params w)
              × AnswersAtMost 1000 (fetch_all_no_mined ex params w)))
unfolding fetch_richest Names.fetch_all all_unpaid fetch_all_no_mined
listings-AnswersAtMost ex limit offset params w = (
  answered _ ((query-AtMost _ ex (λ t. page-AtMost _ limit offset)).at w tt),
  (
    answered _ ((query-AtMost _ ex (λ t. page-AtMost _ limit offset)).at w tt),
    (
      answered _ ((query-AtMost _ ex (λ t. page-AtMost _ _ _)).at w tt),
      answered _ ((query-AtMost _ ex (λ t. page-AtMost _ _ _)).at w tt),
    ),
  ),
)
