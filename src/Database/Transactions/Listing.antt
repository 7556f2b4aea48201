-- ===== src/Database/Transactions/Listing.antt =====
-- The listing queries of src/database/transaction.rs.
use mathlib.Core.Option
use kromer.Prelude.{Bool, ℕ, ℤ, pos, List, not, ◌&&◌, length, select}
use kromer.Errors.{DatabaseError}
use kromer.Database.{Transaction, PaginationParams}
use kromer.Database.Statements.{Executor, pool, query, page, clamp, order_by}
use kromer.Database.Wallets.Listing.{is_mined, is_some_true, newer}
use kromer.Exec.{ok, Exec, sqlx_to_database}

unfoldable pub fetch_all : Executor → ℤ → ℤ → Exec DatabaseError (List Transaction)
fetch_all ex limit offset =
    sqlx_to_database (query ex (λ t. page (clamp limit) offset t.transactions))

unfoldable pub total_count : Executor → Exec DatabaseError ℕ
total_count ex = sqlx_to_database (query ex (λ t. ok (length t.transactions)))

-- `WHERE transaction_type != 'mined'`, if the request excludes mined transactions.
abbrev pub is_listed : PaginationParams → Transaction → Bool
is_listed params r = not (is_some_true params.exclude_mined && is_mined r.transaction_type)

unfoldable pub sorted_by_date : PaginationParams → Exec DatabaseError (List Transaction)
sorted_by_date params = sqlx_to_database (
    query pool (λ t.
      page (clamp (Option.get_or params.limit (pos 50))) (Option.get_or params.offset (pos 0))
        (order_by newer (select (is_listed params) t.transactions))))

unfoldable pub total_count_no_mined : Executor → PaginationParams → Exec DatabaseError ℕ
total_count_no_mined ex params =
    sqlx_to_database (query ex (λ t. ok (length (select (is_listed params) t.transactions))))

unfoldable pub fetch_all_no_mined :
    Executor → PaginationParams → Exec DatabaseError (List Transaction)
fetch_all_no_mined ex params = sqlx_to_database (
    query ex (λ t.
      page (clamp (Option.get_or params.limit (pos 50))) (Option.get_or params.offset (pos 0))
        (select (is_listed params) t.transactions)))
