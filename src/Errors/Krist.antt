-- ===== src/Errors/Krist.antt =====
-- The errors of the Krist routes, src/errors/krist.rs and src/errors/krist/*.rs: their types, the
-- machine-readable names, the status codes, and the conversions from the internal errors.
use kromer.Prelude.{ℕ, String, Option, none, some}
use kromer.Errors as Internal
use kromer.Errors.{SqlxError, GenericError, invalid_parameter, missing_parameter, DatabaseError}
use kromer.Errors.{generic_to_string}

pub data AddressError : Type 0 where
  not_found : String → AddressError
  auth_failed : AddressError

pub data NameError : Type 0 where
  name_not_found name_taken not_name_owner : String → NameError
  insufficient_balance : NameError

pub data TransactionError : Type 0 where
  insufficient_funds not_found disabled same_wallet_transfer : TransactionError
  conflict : String → TransactionError

pub data WebSocketError : Type 0 where
  invalid_websocket_token handshake_error : WebSocketError

-- `json_payload` and `path` are errors of the web framework.
pub data KristError : Type 0 where
  address : AddressError → KristError
  generic : GenericError → KristError
  name : NameError → KristError
  transaction : TransactionError → KristError
  web_socket : WebSocketError → KristError
  database : SqlxError → KristError
  json_payload path : KristError
  custom : String → KristError

-- `impl From<wallet::WalletError> for AddressError`
unfoldable pub address_of_wallet : Internal.WalletError → AddressError
address_of_wallet (Internal.WalletError.not_found a) = not_found a
address_of_wallet Internal.WalletError.auth_failed = auth_failed

-- `impl From<name::NameError> for NameError`
unfoldable pub name_of_name : Internal.NameError → NameError
name_of_name (Internal.NameError.name_not_found n) = name_not_found n
name_of_name (Internal.NameError.name_taken n) = name_taken n
name_of_name (Internal.NameError.not_name_owner n) = not_name_owner n
name_of_name Internal.NameError.insufficient_balance = insufficient_balance

-- `impl From<transaction::TransactionError> for TransactionError`
unfoldable pub transaction_of_transaction : Internal.TransactionError → TransactionError
transaction_of_transaction Internal.TransactionError.insufficient_funds = insufficient_funds
transaction_of_transaction Internal.TransactionError.not_found = TransactionError.not_found
transaction_of_transaction Internal.TransactionError.disabled = disabled
transaction_of_transaction Internal.TransactionError.same_wallet_transfer = same_wallet_transfer
transaction_of_transaction (Internal.TransactionError.conflict p) = conflict p

-- `impl From<DatabaseError> for KristError`; `none` is the `unreachable!` of a player error.
unfoldable pub krist_of_database : DatabaseError → Option KristError
unfolding address_of_wallet name_of_name transaction_of_transaction
krist_of_database (DatabaseError.sqlx e) = some (database e)
krist_of_database (DatabaseError.name e) = some (name (name_of_name e))
krist_of_database (DatabaseError.player _) = none
krist_of_database (DatabaseError.transaction e) = some (transaction (transaction_of_transaction e))
krist_of_database (DatabaseError.wallet e) = some (address (address_of_wallet e))
krist_of_database (DatabaseError.generic e) = some (generic e)

unfoldable pub address_type : AddressError → String
address_type (not_found _) = "address_not_found"
address_type auth_failed = "auth_failed"

unfoldable pub generic_type : GenericError → String
generic_type (invalid_parameter _) = "invalid_parameter"
generic_type (missing_parameter _) = "missing_parameter"

unfoldable pub name_type : NameError → String
name_type (name_not_found _) = "name_not_found"
name_type (name_taken _) = "name_taken"
name_type (not_name_owner _) = "not_name_owner"
name_type insufficient_balance = "insufficient_balance"

unfoldable pub transaction_type : TransactionError → String
transaction_type insufficient_funds = "insufficient_funds"
transaction_type TransactionError.not_found = "transaction_not_found"
transaction_type disabled = "transactions_disabled"
transaction_type same_wallet_transfer = "same_wallet_transfer"
transaction_type (conflict _) = "transaction_conflict"

unfoldable pub web_socket_type : WebSocketError → String
web_socket_type invalid_websocket_token = "invalid_websocket_token"
web_socket_type handshake_error = "handshake_error"

-- `impl KristErrorExt for KristError`
unfoldable pub error_type : KristError → String
unfolding address_type generic_type name_type transaction_type web_socket_type
error_type (address e) = address_type e
error_type (generic e) = generic_type e
error_type (name e) = name_type e
error_type (transaction e) = transaction_type e
error_type (web_socket e) = web_socket_type e
error_type (database _) = "internal_server_error"
error_type json_payload = "internal_server_error"
error_type path = "internal_server_error"
error_type (custom e) = e

unfoldable pub address_status : AddressError → ℕ
address_status (not_found _) = 404
address_status auth_failed = 401

unfoldable pub generic_status : GenericError → ℕ
generic_status _ = 400

unfoldable pub name_status : NameError → ℕ
name_status (name_not_found _) = 404
name_status (name_taken _) = 409
name_status (not_name_owner _) = 403
name_status insufficient_balance = 418

unfoldable pub transaction_status : TransactionError → ℕ
transaction_status insufficient_funds = 403
transaction_status TransactionError.not_found = 404
transaction_status disabled = 423
transaction_status same_wallet_transfer = 400
transaction_status (conflict _) = 409

unfoldable pub web_socket_status : WebSocketError → ℕ
web_socket_status _ = 403

-- `impl ResponseError for KristError`
unfoldable pub status_code : KristError → ℕ
unfolding address_status generic_status name_status transaction_status web_socket_status
status_code (address e) = address_status e
status_code (generic e) = generic_status e
status_code (name e) = name_status e
status_code (transaction e) = transaction_status e
status_code (web_socket e) = web_socket_status e
status_code (database _) = 500
status_code json_payload = 500
status_code path = 500
status_code (custom _) = 400
