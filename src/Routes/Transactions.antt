-- ===== src/Routes/Transactions.antt =====
-- The handlers of src/routes/krist/transactions.rs.
use mathlib.Core.Option
use Prim.Native.String.{len}
use kromer.Prelude.{
  ℕ, ℤ, pos, leb_ℤ, ltb_ℤ, ltb, String, str_eq, codes, Option, List, map, length, Bool, not, ◌||◌,
  if◌then◌else◌,
}
use kromer.Errors.{invalid_parameter}
use kromer.Errors.Krist.{
  KristError, generic, address, transaction, name, AddressError, auth_failed, name_not_found,
  TransactionError, insufficient_funds, same_wallet_transfer,
}
use kromer.Database.{
  Wallet, Transaction, TransactionCreateData, default_data, transfer, PaginationParams,
}
use kromer.Database.Externals.{Externals, Decimal}
use kromer.Database.Statements.{pool, tx}
use kromer.Database.Wallets.{fetch_by_address, verify_address}
use kromer.Database.Names.{fetch_by_name, owner}
use kromer.Database.Transactions.{create_in_transaction, fetch_by_id}
use kromer.Database.Transactions.Listing.{sorted_by_date, total_count_no_mined, fetch_all_no_mined}
use kromer.Database.Transactions.NameData.{TransactionNameData, no_name, parse}
use kromer.Exec.{
  Exec, ◌>>=◌, ◌>>◌, pure, throw_if, ok_or, begin, commit, scoped, to_krist, sqlx_to_krist,
}
use kromer.Models.{TransactionJson, transaction_json}
use kromer.Models.Messages.{new_event, WebSocketEvent}
use kromer.Validation.{name_meta_re}
use kromer.Validation.Matching.{is_match}
use kromer.WebSockets.Broadcast.{broadcast_event}

-- `TransactionDetails` of src/models/krist/transactions.rs.
pub record TransactionDetails : Type 0 where
  pub private_key : String
  pub to : String
  pub amount : Decimal
  pub metadata : Option String

pub record TransactionListResponse : Type 0 where
  pub count : ℕ
  pub total : ℕ
  pub transactions : List TransactionJson

-- `NAME_META_RE.is_match(&details.to)`
unfoldable pub is_name : String → Bool
unfolding name_meta_re is_match
is_name to = is_match name_meta_re (codes to)

-- The name data of the recipient, if it is a name.
abbrev pub sent_data : Bool → String → TransactionNameData
unfolding parse
sent_data is_name to = if is_name then parse to else no_name

-- The wallet that a name belongs to.
unfoldable pub owner_of_name : TransactionNameData → String → Exec KristError Wallet
owner_of_name d to = do
  found ← to_krist (fetch_by_name tx (Option.get_or d.name ""))
  n ← ok_or found (name (name_not_found to))
  who ← to_krist (owner n)
  ok_or who (name (name_not_found to))

unfoldable pub wallet_at : String → Exec KristError Wallet
wallet_at to = do
  found ← to_krist (fetch_by_address tx to)
  ok_or found (address (AddressError.not_found to))

abbrev pub recipient_of : Bool → TransactionNameData → String → Exec KristError Wallet
recipient_of is_name d to = if is_name then owner_of_name d to else wallet_at to

abbrev pub transfer_data :
    Wallet → Wallet → ℤ → TransactionNameData → Option String → TransactionCreateData
transfer_data sender recipient amount d metadata = record default_data {
  from = sender.address;
  to = recipient.address;
  amount = amount;
  sent_metaname = d.metaname;
  sent_name = d.name;
  metadata = metadata;
  transaction_type = transfer;
}

module _ (x : Externals) where
  -- What `transaction_create` does between `begin` and `commit`.
  unfoldable pub transfer_in_transaction : TransactionDetails → ℤ → Exec KristError Transaction
  transfer_in_transaction details amount = do
    verified ← to_krist (verify_address x tx details.private_key)
    throw_if (not verified.authed) (address auth_failed)
    let sender = verified.wallet
    let to_name = is_name details.to
    let d = sent_data to_name details.to
    recipient ← recipient_of to_name d details.to
    throw_if (ltb_ℤ sender.balance amount) (transaction insufficient_funds)
    throw_if (str_eq sender.address recipient.address) (transaction same_wallet_transfer)
    to_krist (create_in_transaction (transfer_data sender recipient amount d details.metadata))

  unfoldable pub transaction_create : TransactionDetails → Exec KristError TransactionJson
  transaction_create details = scoped do
    let amount = x.round_dp2 details.amount
    throw_if (str_eq details.to "" || ltb 64 (len details.to)) (generic (invalid_parameter "to"))
    throw_if (leb_ℤ amount (pos 0)) (generic (invalid_parameter "amount"))
    sqlx_to_krist begin
    model ← transfer_in_transaction details amount
    let json = transaction_json x model
    sqlx_to_krist commit
    broadcast_event (new_event (WebSocketEvent.transaction json))
    pure json

  abbrev pub listing : List Transaction → ℕ → TransactionListResponse
  listing rows total =
      let l = map (transaction_json x) rows in
      record { count = length l; total = total; transactions = l }

  unfoldable pub transaction_list : PaginationParams → Exec KristError TransactionListResponse
  transaction_list params = scoped do
    sqlx_to_krist begin
    total ← to_krist (total_count_no_mined tx params)
    rows ← to_krist (fetch_all_no_mined tx params)
    sqlx_to_krist commit
    pure (listing rows total)

  unfoldable pub transaction_latest : PaginationParams → Exec KristError TransactionListResponse
  transaction_latest params = do
    total ← to_krist (total_count_no_mined pool params)
    rows ← to_krist (sorted_by_date params)
    pure (listing rows total)

  unfoldable pub transaction_get : ℕ → Exec KristError TransactionJson
  transaction_get id = do
    slim ← to_krist (fetch_by_id pool id)
    t ← ok_or slim (transaction TransactionError.not_found)
    pure (transaction_json x t)
