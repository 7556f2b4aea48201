-- ===== src/Routes/Names.antt =====
-- The handlers of src/routes/krist/names.rs, and `Name::transfer_ownership` of src/database/name.rs,
-- which sends the same event.
use mathlib.Core.Option
use kromer.Prelude.{
  ℕ, ℤ, pos, ltb_ℤ, String, str_eq, Option, none, some, List, map, length, Bool, true, false, not,
  if◌then◌else◌,
}
use kromer.Errors.{DatabaseError, invalid_parameter, missing_parameter}
use kromer.Errors.Krist.{
  KristError, generic, address, transaction, name, auth_failed, name_not_found, name_taken,
  not_name_owner, insufficient_funds,
}
use kromer.Database.{
  Name, Transaction, TransactionCreateData, default_data, name_purchase, name_transfer,
  PaginationParams,
}
use kromer.Database.Externals.{Externals}
use kromer.Database.Statements.{pool, tx}
use kromer.Database.Wallets.{verify_address}
use kromer.Database.Names.{
  NameDataUpdateBody, fetch_by_name, fetch_all, total_count, all_unpaid, count_unpaid, create,
  update_ownership_in_transaction, ctrl_update_metadata,
}
use kromer.Database.Transactions.{create_in_transaction}
use kromer.Exec.{
  Exec, ◌>>=◌, ◌>>◌, pure, throw, throw_if, ok_or, begin, commit, scoped, to_krist, sqlx_to_krist,
  sqlx_to_database,
}
use kromer.Models.{NameJson, name_json, transaction_json}
use kromer.Models.Messages.{new_event, WebSocketEvent}
use kromer.Validation.{is_valid_name, trim}
use kromer.WebSockets.Broadcast.{broadcast_event}

-- `MINING_CONSTANTS.name_cost` of src/models/krist/motd.rs, and that amount in hundredths.
abbrev pub name_cost : ℕ
name_cost = 500

abbrev pub new_name_cost : ℤ
new_name_cost = pos 50000

pub record NameListResponse : Type 0 where
  pub count : ℕ
  pub total : ℕ
  pub names : List NameJson

-- `TransferNameRequest` of src/models/krist/names.rs.
pub record TransferNameRequest : Type 0 where
  pub address : String
  pub private_key : String

-- The data of the transaction that records a purchase.
abbrev pub purchase_data : String → TransactionCreateData
purchase_data from = record default_data {
  from = from;
  to = "serverwelf";
  amount = new_name_cost;
  transaction_type = name_purchase;
}

-- The data of the transaction that records a transfer.
abbrev pub name_transfer_data : Name → String → TransactionCreateData
name_transfer_data n to = record default_data {
  from = n.owner;
  to = to;
  amount = pos 0;
  name = some n.name;
  transaction_type = name_transfer;
}

-- `if let Some(name) = … { return Err(NameTaken) }`
abbrev pub refuse_taken : Option Name → Exec KristError (Unit {0})
refuse_taken none = pure tt
refuse_taken (some n) = throw (name (name_taken n.name))

module _ (x : Externals) where
  abbrev pub tell : {E : Type 0} → Transaction → Exec E (Unit {0})
  tell t = broadcast_event (new_event (WebSocketEvent.transaction (transaction_json x t)))

  abbrev pub listing : List Name → ℕ → NameListResponse
  listing rows total =
      let l = map (name_json x) rows in record { count = length l; total = total; names = l }

  unfoldable pub name_list : PaginationParams → Exec KristError NameListResponse
  name_list params = scoped do
    sqlx_to_krist begin
    total ← to_krist (total_count tx)
    rows ←
        to_krist
          (fetch_all tx (Option.get_or params.limit (pos 50)) (Option.get_or params.offset (pos 0)))
    sqlx_to_krist commit
    pure (listing rows total)

  -- Whether the name is available.
  unfoldable pub name_check : String → Exec KristError Bool
  name_check n = do
    throw_if (not (is_valid_name x n true)) (generic (invalid_parameter "name"))
    found ← to_krist (fetch_by_name pool (x.to_lowercase (trim n)))
    pure (elim found [ none ↦ true | some _ ↦ false ])

  unfoldable pub name_bonus : Exec KristError ℕ
  name_bonus = sqlx_to_krist (count_unpaid pool)

  unfoldable pub name_new : PaginationParams → Exec KristError NameListResponse
  name_new params = scoped do
    sqlx_to_krist begin
    total ← to_krist (total_count tx)
    rows ← to_krist (all_unpaid tx params)
    sqlx_to_krist commit
    pure (listing rows total)

  unfoldable pub name_get : String → Exec KristError NameJson
  name_get n = do
    found ← to_krist (fetch_by_name pool n)
    r ← ok_or found (name (name_not_found n))
    pure (name_json x r)

  -- What `name_register` does after its checks of the request, up to the commit.
  unfoldable pub register_in_transaction : String → String → Exec KristError Name
  register_in_transaction n private_key = do
    found ← to_krist (fetch_by_name tx n)
    refuse_taken found
    verified ← to_krist (verify_address x tx private_key)
    throw_if (not verified.authed) (address auth_failed)
    throw_if (ltb_ℤ verified.wallet.balance new_name_cost) (transaction insufficient_funds)
    t ← to_krist (create_in_transaction (purchase_data verified.wallet.address))
    tell t
    to_krist (create tx n verified.wallet.address)

  -- `private_key` is that of the request's body, which may be missing.
  unfoldable pub name_register : String → Option String → Exec KristError NameJson
  name_register raw private_key = scoped do
    let n = x.to_lowercase (trim raw)
    key ← ok_or private_key (generic (missing_parameter "privatekey"))
    throw_if (not (is_valid_name x n false)) (generic (invalid_parameter "name"))
    sqlx_to_krist begin
    r ← register_in_transaction n key
    sqlx_to_krist commit
    pure (name_json x r)

  unfoldable pub name_update_data : String → NameDataUpdateBody → Exec KristError NameJson
  name_update_data n body = do
    model ← to_krist (ctrl_update_metadata x n body)
    pure (name_json x model)

  -- The end of `name_transfer`, once the owner is known and is not the new owner.
  unfoldable pub hand_over : Name → String → Exec KristError NameJson
  hand_over n to = do
    updated ← to_krist (update_ownership_in_transaction n to)
    t ← to_krist (create_in_transaction (name_transfer_data n to))
    sqlx_to_krist commit
    tell t
    pure (name_json x updated)

  unfoldable pub name_transfer_route : String → TransferNameRequest → Exec KristError NameJson
  name_transfer_route raw details = scoped do
    throw_if (not (is_valid_name x raw false)) (generic (invalid_parameter "name"))
    let n = x.to_lowercase (trim raw)
    sqlx_to_krist begin
    verified ← to_krist (verify_address x tx details.private_key)
    throw_if (not verified.authed) (address auth_failed)
    found ← to_krist (fetch_by_name tx n)
    model ← ok_or found (name (name_not_found n))
    throw_if (not (str_eq model.owner verified.wallet.address)) (name (not_name_owner model.name))
    if str_eq model.owner details.address
        then pure (name_json x model)
        else hand_over model details.address

  -- `Name::transfer_ownership`: here the event goes out before the commit.
  unfoldable pub transfer_ownership : Name → String → Exec DatabaseError Name
  transfer_ownership self to = scoped do
    sqlx_to_database begin
    updated ← update_ownership_in_transaction self to
    t ← create_in_transaction (name_transfer_data self to)
    tell t
    sqlx_to_database commit
    pure updated
