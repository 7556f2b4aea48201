-- ===== src/Database/Wallets/Listing.antt =====
-- The listing queries of src/database/wallet.rs: pages of wallets, and a wallet's transactions and
-- names.
use kromer.Prelude.{
  ℕ, ℤ, pos, ltb_ℤ, ltb, String, str_eq, Option, none, some, List, [], ◌∷◌, map, Bool, true, false,
  ◌&&◌, ◌||◌, not, if◌then◌else◌, length, find, select,
}
use mathlib.Core.Option
use kromer.Errors.{SqlxError, DatabaseError}
use kromer.Database.{Wallet, Transaction, TransactionType, mined, Name, Tables, PaginationParams}
use kromer.Database.Statements.{Executor, pool, query, page, clamp, order_by}
use text.Mathlib.Text.{is_lt}
use Prim.Native.String.{compare}
use kromer.Database.Wallets.{at_address, same_key, acquire}
use kromer.Exec.{ok, Exec, ◌>>◌, sqlx_to_database}

-- `transaction_type != 'mined'`
abbrev pub is_mined : TransactionType → Bool
is_mined mined = true
is_mined _ = false

abbrev pub is_some_true : Option Bool → Bool
is_some_true none = false
is_some_true (some b) = b

unfoldable pub fetch_all : Executor → ℤ → ℤ → Exec DatabaseError (List Wallet)
fetch_all ex limit offset = sqlx_to_database (query ex (λ t. page (clamp limit) offset t.wallets))

unfoldable pub total_count : Executor → Exec DatabaseError ℕ
total_count ex = sqlx_to_database (query ex (λ t. ok (length t.wallets)))

abbrev pub richer : Wallet → Wallet → Bool
richer u v = ltb_ℤ v.balance u.balance

unfoldable pub fetch_richest : Executor → ℤ → ℤ → Exec DatabaseError (List Wallet)
fetch_richest ex limit offset =
    sqlx_to_database (query ex (λ t. page (clamp limit) offset (order_by richer t.wallets)))

-- `"from" = $1 OR "to" = $1`
abbrev pub involves : String → Transaction → Bool
involves a t = same_key t.from a || str_eq t.to a

unfoldable pub total_transactions : Wallet → Executor → Bool → Exec SqlxError ℕ
total_transactions self ex exclude_mined = query ex λ t. ok (
    length (
      select
        (λ (r : Transaction).
          involves self.address r && not (exclude_mined && is_mined r.transaction_type))
        t.transactions))

abbrev pub newer : Transaction → Transaction → Bool
newer a b = ltb b.date a.date

unfoldable pub transactions :
    Wallet → Executor → PaginationParams → Exec SqlxError (List Transaction)
transactions self ex params = query ex λ t.
    page (clamp (Option.get_or params.limit (pos 50))) (Option.get_or params.offset (pos 0)) (
      order_by newer (
        select
          (λ (r : Transaction).
            involves self.address r
            && not (is_some_true params.exclude_mined && is_mined r.transaction_type))
          t.transactions))

-- `ORDER BY name ASC`; the collation is the order of code points.
abbrev pub earlier_name : Name → Name → Bool
earlier_name a b = is_lt (compare a.name b.name)

unfoldable pub names : Wallet → Executor → PaginationParams → Exec SqlxError (List Name)
names self ex params = query ex λ t.
    page (clamp (Option.get_or params.limit (pos 50))) (Option.get_or params.offset (pos 0))
      (order_by earlier_name (select (λ (n : Name). str_eq n.owner self.address) t.names))

-- `SELECT COUNT(*) FROM names WHERE owner = $1`
abbrev pub owned_count : String → Tables → ℕ
owned_count a t = length (select (λ (n : Name). str_eq n.owner a) t.names)

unfoldable pub names_owned : Wallet → Executor → Exec SqlxError ℕ
names_owned self ex = query ex λ t. ok (owned_count self.address t)

abbrev pub with_names : Tables → Wallet → Wallet
with_names t w = record w { names = some (owned_count w.address t) }

-- `ORDER BY names DESC`
abbrev pub more_names : Wallet → Wallet → Bool
more_names a b = ltb (Option.get_or b.names 0) (Option.get_or a.names 0)

-- `wallets.address = ANY($1)`
abbrev pub any_address : List String → Wallet → Bool
any_address [] w = false
any_address (a ∷ as') w = str_eq w.address a || any_address as' w

unfoldable pub lookup_addresses : List String → Bool → Exec SqlxError (List Wallet)
lookup_addresses addresses fetch_names = do
  acquire pool
  query pool λ t.
      let found = select (any_address addresses) t.wallets in
      if fetch_names then ok (order_by more_names (map (with_names t) found)) else ok found

unfoldable pub fetch_by_address_names : Executor → String → Exec DatabaseError (Option Wallet)
fetch_by_address_names ex a =
    sqlx_to_database
      (query ex (λ t. ok (Option.map (with_names t) (find (at_address a) t.wallets))))
