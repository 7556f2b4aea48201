-- ===== src/Database/Names.antt =====
-- The queries and operations of src/database/name.rs.
pub mod Unique
pub mod Owned
use mathlib.Core.Option
use kromer.Prelude.{
  ltb, ◌^◌, ℕ, suc, ℤ, pos, String, str_eq, Option, none, some, List, Bool, true, false, not, ◌&&◌,
  if◌then◌else◌, ltb_ℤ, ◌==◌, length, find, select, push,
}
use kromer.Errors.{
  SqlxError, database, DatabaseError, GenericError, invalid_parameter, WalletError, auth_failed,
  NameError, name_not_found, not_name_owner,
}
use kromer.Database.{
  Name, Wallet, Transaction, TransactionCreateData, default_data, name_transfer, Tables, Serials,
  PaginationParams,
}
use kromer.Database.Externals.{Externals}
use kromer.Database.Statements.{
  Executor, pool, tx, Written, query, update, insert, page, clamp, fits_text, update_returning,
  put_rows,
}
use kromer.Database.Wallets as Wallets
use kromer.Database.Wallets.{verify_address}
use kromer.Exec.{
  Outcome, ok, err, panic, Exec, ◌>>=◌, ◌>>◌, pure, throw, throw_if, ok_or, trip, sqlx_to_database,
}
use kromer.Validation.{is_valid_name, is_valid_a_record, trim}

abbrev pub named : String → Name → Bool
named n r = str_eq r.name n

unfoldable pub fetch_by_id : Executor → ℕ → Exec DatabaseError (Option Name)
fetch_by_id ex id = sqlx_to_database (query ex (λ t. ok (find (λ (r : Name). r.id == id) t.names)))

unfoldable pub fetch_all : Executor → ℤ → ℤ → Exec DatabaseError (List Name)
fetch_all ex limit offset = sqlx_to_database (query ex (λ t. page (clamp limit) offset t.names))

unfoldable pub total_count : Executor → Exec DatabaseError ℕ
total_count ex = sqlx_to_database (query ex (λ t. ok (length t.names)))

unfoldable pub fetch_by_name : Executor → String → Exec DatabaseError (Option Name)
fetch_by_name ex n = sqlx_to_database (query ex (λ t. ok (find (named n) t.names)))

-- `WHERE unpaid > 0`
abbrev pub is_unpaid : Name → Bool
is_unpaid r = ltb_ℤ (pos 0) r.unpaid

unfoldable pub all_unpaid : Executor → PaginationParams → Exec DatabaseError (List Name)
all_unpaid ex params = sqlx_to_database (
    query ex (λ t.
      page (clamp (Option.get_or params.limit (pos 50))) (Option.get_or params.offset (pos 0))
        (select is_unpaid t.names)))

unfoldable pub count_unpaid : Executor → Exec SqlxError ℕ
count_unpaid ex = query ex (λ t. ok (length (select is_unpaid t.names)))

abbrev pub new_name : ℕ → ℕ → String → String → Name
new_name id now name owner = record {
  id = id;
  last_transfered = none;
  last_updated = none;
  name = name;
  owner = owner;
  original_owner = owner;
  time_registered = now;
  unpaid = pos 0;
  metadata = none;
}

-- The range of the identifiers, the unique index on the name, and the widths of the columns.
unfoldable pub accepts_name : ℕ → List Name → String → String → Bool
unfolding fits_text
accepts_name id names name owner =
    (ltb id (2 ^ 31) && fits_text 64 name && fits_text 10 owner)
    && (elim (find (named name) names) [ none ↦ true | some _ ↦ false ])

unfoldable pub insert_name : String → String → Serials → ℕ → Tables → Written Name
unfolding accepts_name
insert_name name owner s now t =
    let r = new_name s.name_id now name owner in
    if accepts_name s.name_id t.names name owner
    then ok (r, record t { names = push t.names r })
    else err database

unfoldable pub create : Executor → String → String → Exec DatabaseError Name
create ex name owner =
    sqlx_to_database
      (insert ex (λ s. record s { name_id = suc s.name_id }) (insert_name name owner))

unfoldable pub write_name : (Name → Bool) → String → (ℕ → Name → Name) → ℕ → Tables → Written Name
unfolding update_returning
write_name fits name f now t =
    put_rows (λ rows. record t { names = rows })
      (update_returning fits (named name) (f now) t.names)

abbrev pub with_metadata : String → ℕ → Name → Name
with_metadata m now r = record r { metadata = some m }

unfoldable pub update_metadata : Executor → String → String → Exec DatabaseError Name
update_metadata ex name metadata =
    sqlx_to_database
      (update ex (write_name (λ _. fits_text 255 metadata) name (with_metadata metadata)))

abbrev pub with_owner : String → ℕ → Name → Name
with_owner o now r = record r { owner = o; last_updated = some now; last_transfered = some now }

unfoldable pub update_ownership_in_transaction : Name → String → Exec DatabaseError Name
update_ownership_in_transaction self new_owner =
    sqlx_to_database
      (update tx (write_name (λ _. fits_text 10 new_owner) self.name (with_owner new_owner)))

-- Inside a transaction `conn.begin()` is a savepoint and its `commit` releases it.
unfoldable pub owner : Name → Exec DatabaseError (Option Wallet)
owner self = do
  sqlx_to_database trip
  found ← Wallets.fetch_by_address tx self.owner
  sqlx_to_database trip
  pure found

-- `NameDataUpdateBody` of src/models/krist/names.rs.
pub record NameDataUpdateBody : Type 0 where
  pub a : Option String
  pub private_key : String

-- `model.metadata == Some(a)`
abbrev pub has_metadata : Option String → String → Bool
has_metadata none a = false
has_metadata (some m) a = str_eq m a

module _ (x : Externals) where
  abbrev pub update_unless_same : Name → String → String → Exec DatabaseError Name
  update_unless_same model name a =
      if has_metadata model.metadata a then pure model else update_metadata pool name a

  unfoldable pub ctrl_update_metadata : String → NameDataUpdateBody → Exec DatabaseError Name
  ctrl_update_metadata name body = do
    metadata_record ← ok_or body.a (DatabaseError.generic (invalid_parameter "name"))
    throw_if (not (is_valid_name x name false)) (DatabaseError.generic (invalid_parameter "name"))
    throw_if (not (is_valid_a_record metadata_record))
        (DatabaseError.generic (invalid_parameter "a"))
    let name' = x.to_lowercase (trim name)
    wallet ← verify_address x pool body.private_key
    throw_if (not wallet.authed) (DatabaseError.wallet auth_failed)
    found ← fetch_by_name pool name'
    model ← ok_or found (DatabaseError.name (name_not_found name'))
    throw_if (not (str_eq model.owner wallet.wallet.address))
        (DatabaseError.name (not_name_owner name'))
    update_unless_same model name' metadata_record
