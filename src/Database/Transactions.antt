-- ===== src/Database/Transactions.antt =====
-- The statements of src/database/transaction.rs that move money and record transactions.
pub mod Listing
pub mod NameData
pub mod Conserves
pub mod Booked
pub mod Audit
pub mod Pushed
pub mod Runs
pub mod Parsing
use mathlib.Core.Option
use kromer.Prelude.{
  Bool, ℕ, suc, ℤ, neg_ℤ, String, Option, none, some, ◌&&◌, if◌then◌else◌, push, ◌==◌, find, ltb,
  ◌^◌,
}
use kromer.Errors.{SqlxError, database, DatabaseError, WalletError}
use kromer.Database.{Transaction, TransactionCreateData, Tables, Serials}
use kromer.Database.Statements.{
  Executor, tx, pool, Written, query, insert, fits_numeric, fits_text, fits_optional,
}
use kromer.Database.Wallets.{fetch_by_address, update_balance}
use kromer.Exec.{ok, err, Exec, ◌>>=◌, ◌>>◌, pure, ok_or, begin, commit, scoped, sqlx_to_database}

unfoldable pub fetch_by_id : Executor → ℕ → Exec DatabaseError (Option Transaction)
fetch_by_id ex id =
    sqlx_to_database (query ex (λ t. ok (find (λ (r : Transaction). r.id == id) t.transactions)))

-- The range of the identifiers and the widths of the columns of `transactions`.
unfoldable pub accepts_transaction : Transaction → Option String → Bool
unfolding fits_numeric fits_text fits_optional
accepts_transaction r from =
    ltb r.id (2 ^ 31)
    && fits_numeric r.amount
    && fits_optional 10 from
    && fits_text 10 r.to
    && fits_optional 512 r.metadata
    && fits_optional 128 r.name
    && fits_optional 32 r.sent_metaname
    && fits_optional 32 r.sent_name

unfoldable pub insert_transaction :
    (ℕ → ℕ → Transaction) → Serials → ℕ → Tables → Written Transaction
unfolding accepts_transaction
insert_transaction row s now t =
    let r = row s.transaction_id now in
    if accepts_transaction r r.from
    then ok (r, record t { transactions = push t.transactions r })
    else err database

abbrev pub next_transaction : Serials → Serials
next_transaction s = record s { transaction_id = suc s.transaction_id }

-- The row of `create_no_update`: the name columns are left out.
abbrev pub plain_row : TransactionCreateData → ℕ → ℕ → Transaction
plain_row d id now = record {
  id = id;
  amount = d.amount;
  from = some d.from;
  to = d.to;
  metadata = some (Option.get_or d.metadata "");
  name = none;
  sent_metaname = none;
  sent_name = none;
  transaction_type = d.transaction_type;
  date = now;
}

-- The row of `create_impl`.
abbrev pub full_row : TransactionCreateData → ℕ → ℕ → Transaction
full_row d id now = record (plain_row d id now) {
  name = d.name;
  sent_metaname = d.sent_metaname;
  sent_name = d.sent_name;
}

unfoldable pub create_no_update : Executor → TransactionCreateData → Exec DatabaseError Transaction
create_no_update ex d =
    sqlx_to_database (insert ex next_transaction (insert_transaction (plain_row d)))

-- Debits the sender, credits the recipient and records the transaction.
unfoldable pub create_impl : TransactionCreateData → Exec DatabaseError Transaction
create_impl d = do
  found_sender ← fetch_by_address tx d.from
  sender ← ok_or found_sender (DatabaseError.wallet (WalletError.not_found d.from))
  found_recipient ← fetch_by_address tx d.to
  recipient ← ok_or found_recipient (DatabaseError.wallet (WalletError.not_found d.to))
  sqlx_to_database (update_balance sender tx (neg_ℤ d.amount))
  sqlx_to_database (update_balance recipient tx d.amount)
  sqlx_to_database (insert tx next_transaction (insert_transaction (full_row d)))

unfoldable pub create_in_transaction : TransactionCreateData → Exec DatabaseError Transaction
create_in_transaction d = create_impl d

-- `Transaction::create`: a database transaction of its own.
unfoldable pub create : TransactionCreateData → Exec DatabaseError Transaction
create d =
    scoped do sqlx_to_database begin; model ← create_impl d; sqlx_to_database commit; pure model
