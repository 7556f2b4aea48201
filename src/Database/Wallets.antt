-- ===== src/Database/Wallets.antt =====
-- The queries of src/database/wallet.rs on one wallet: reading, creating, authenticating, and moving
-- its balance.
pub mod Listing
pub mod Total
pub mod Runs
pub mod Settled
pub mod Verified
pub mod Funds
pub mod Selected
pub mod Richest
use mathlib.Core.Logic.{◌≢◌}
use Prim.Native.String.{◌++◌}
use kromer.Prelude.{
  ltb, ◌^◌, ℕ, suc, ◌+◌, ◌<◌, ℤ, pos, ◌+ℤ◌, abs_ℤ, ltb_ℤ, String, str_eq, Option, none, some, List,
  [], ◌∷◌, map, Bool, true, false, ◌&&◌, ◌||◌, not, if◌then◌else◌, length, find, select, push, ◌==◌,
}
use mathlib.Core.Option
use kromer.Errors.{SqlxError, row_not_found, database, DatabaseError, KromerError}
use kromer.Database.{
  Wallet, VerifyResponse, Transaction, TransactionType, mined, Name, Tables, Serials,
  PaginationParams,
}
use kromer.Database.Externals.{Externals, make_v2_address}
use kromer.Database.Statements.{
  Executor, pool, tx, Written, query, update, insert, page, clamp, order_by, fits_numeric,
  fits_text, fits_optional, update_returning, put_rows, check,
}
use kromer.Exec.{
  Outcome, ok, err, panic, Exec, ◌>>=◌, ◌>>◌, pure, trip, sqlx_to_database, sqlx_to_kromer,
}

abbrev pub at_address : String → Wallet → Bool
at_address a w = str_eq w.address a

unfoldable pub fetch_by_id : Executor → ℕ → Exec DatabaseError (Option Wallet)
fetch_by_id ex id =
    sqlx_to_database (query ex (λ t. ok (find (λ (w : Wallet). w.id == id) t.wallets)))

unfoldable pub fetch_by_address : Executor → String → Exec DatabaseError (Option Wallet)
fetch_by_address ex a = sqlx_to_database (query ex (λ t. ok (find (at_address a) t.wallets)))

-- The row that `create_wallet` inserts; the columns that it leaves out have their defaults.
abbrev pub new_wallet : ℕ → ℕ → String → String → ℤ → Wallet
new_wallet id now address hash balance = record {
  id = id;
  address = address;
  balance = balance;
  created_at = now;
  locked = false;
  total_in = pos 0;
  total_out = pos 0;
  private_key = some hash;
  names = none;
}

-- The range of the identifiers, the unique index on the address, and the widths of the columns.
unfoldable pub accepts_wallet : ℕ → List Wallet → String → String → ℤ → Bool
unfolding fits_text fits_numeric
accepts_wallet id wallets address hash balance =
    (ltb id (2 ^ 31) && fits_text 10 address && fits_text 64 hash && fits_numeric balance)
    && (elim (find (at_address address) wallets) [ none ↦ true | some _ ↦ false ])

unfoldable pub insert_wallet : String → String → ℤ → Serials → ℕ → Tables → Written Wallet
unfolding accepts_wallet
insert_wallet address hash balance s now t =
    let w = new_wallet s.wallet_id now address hash balance in
    if accepts_wallet s.wallet_id t.wallets address hash balance
    then ok (w, record t { wallets = push t.wallets w })
    else err database

unfoldable pub create_wallet : Executor → String → String → Option ℤ → Exec SqlxError Wallet
create_wallet ex address hash initial_balance =
    insert ex (λ s. record s { wallet_id = suc s.wallet_id })
      (insert_wallet address hash (Option.get_or initial_balance (pos 0)))

abbrev pub same_key : Option String → String → Bool
same_key none h = false
same_key (some k) h = str_eq k h

-- `pool.acquire()`: a connection from the pool, or the transaction's own.
unfoldable pub acquire : Executor → Exec SqlxError (Unit {0})
acquire pool = trip
acquire tx = pure tt

module _ (x : Externals) where
  -- What `verify_address` compares with the stored key: sha256 of the address and the key.
  unfoldable pub key_hash : String → String
  key_hash private_key = x.sha256 (make_v2_address x private_key ++ private_key)

  abbrev pub or_create : Executor → String → String → Option Wallet → Exec DatabaseError Wallet
  or_create ex address hash (some w) = pure w
  or_create ex address hash none = sqlx_to_database (create_wallet ex address hash none)

  unfoldable pub verify_address : Executor → String → Exec DatabaseError VerifyResponse
  verify_address ex private_key = do
    let address = make_v2_address x private_key
    let hash = key_hash private_key
    sqlx_to_database (acquire ex)
    result ← fetch_by_address ex address
    wallet ← or_create ex address hash result
    pure (record { authed = same_key wallet.private_key hash; wallet = wallet })

-- `UPDATE wallets SET balance = $1`
abbrev pub with_balance : ℤ → Wallet → Wallet
with_balance b w = record w { balance = b }

-- `UPDATE wallets SET balance = balance + $1, total_in = …, total_out = …`
abbrev pub with_change : ℤ → Wallet → Wallet
with_change d w = record w {
  balance = w.balance +ℤ d;
  total_in = w.total_in +ℤ (if ltb_ℤ (pos 0) d then d else pos 0);
  total_out = abs_ℤ w.total_out +ℤ (if ltb_ℤ d (pos 0) then abs_ℤ d else pos 0);
}

-- The NUMERIC(16, 2) columns of a row.
unfoldable pub fits_wallet : Wallet → Bool
unfolding fits_numeric
fits_wallet w = fits_numeric w.balance && fits_numeric w.total_in && fits_numeric w.total_out

unfoldable pub write_wallet : String → (Wallet → Wallet) → ℕ → Tables → Written Wallet
unfolding fits_wallet update_returning
write_wallet address f now t =
    put_rows (λ rows. record t { wallets = rows })
      (update_returning fits_wallet (at_address address) f t.wallets)

unfoldable pub set_balance : Wallet → Executor → ℤ → Exec KromerError Wallet
set_balance self ex balance =
    sqlx_to_kromer (update ex (write_wallet self.address (with_balance balance)))

unfoldable pub update_balance : Wallet → Executor → ℤ → Exec SqlxError Wallet
update_balance self ex d = update ex (write_wallet self.address (with_change d))
