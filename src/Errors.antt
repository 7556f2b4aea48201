-- ===== src/Errors.antt =====
-- The internal errors, src/errors/{mod,name,player,transaction,wallet,websocket}.rs, and
-- `DatabaseError` of src/database.rs. `SqlxError` and the payload errors come from other crates: of
-- them the model keeps the kinds that the code can meet, and takes their texts as parameters.
pub mod Krist
pub mod Responses
use kromer.Prelude.{ℕ, String, some, none, Option, List, []}
use Prim.Native.String.{◌++◌}

-- What `sqlx` reports: `fetch_one` found no row, the server refused a statement, or the connection
-- was lost.
pub data SqlxError : Type 0 where
  row_not_found database io : SqlxError

pub data NameError : Type 0 where
  name_not_found name_taken not_name_owner : String → NameError
  insufficient_balance : NameError

pub data PlayerError : Type 0 where
  not_found : PlayerError

pub data TransactionError : Type 0 where
  insufficient_funds not_found disabled same_wallet_transfer : TransactionError
  conflict : String → TransactionError

pub data WalletError : Type 0 where
  not_found : String → WalletError
  auth_failed : WalletError

-- `krist::generic::GenericError`, which `DatabaseError` carries too.
pub data GenericError : Type 0 where
  invalid_parameter missing_parameter : String → GenericError

pub data WebSocketError : Type 0 where
  payload_read json_parse_read room_creation handshake_error message_send disconnect list_sessions :
      WebSocketError
  web_socket_closed invalid_message_type server_config_error uuid_not_found invalid_uuid :
      WebSocketError
  kromer_address_error id_conversion_error : WebSocketError

pub data DatabaseError : Type 0 where
  sqlx : SqlxError → DatabaseError
  name : NameError → DatabaseError
  player : PlayerError → DatabaseError
  transaction : TransactionError → DatabaseError
  wallet : WalletError → DatabaseError
  generic : GenericError → DatabaseError

-- `io` is `std::io::Error`; `json_payload` keeps the status that the payload error reports.
pub data KromerError : Type 0 where
  not_found : KromerError
  validation : String → KromerError
  database : SqlxError → KromerError
  wallet : WalletError → KromerError
  name : NameError → KromerError
  player : PlayerError → KromerError
  transaction : TransactionError → KromerError
  web_socket : WebSocketError → KromerError
  internal : String → KromerError
  io : KromerError
  json_payload : ℕ → KromerError

unfoldable pub generic_to_string : GenericError → String
generic_to_string (invalid_parameter p) = "Invalid parameter " ++ p
generic_to_string (missing_parameter p) = "Missing parameter " ++ p

-- `impl From<DatabaseError> for KromerError`
unfoldable pub kromer_of_database : DatabaseError → KromerError
unfolding generic_to_string
kromer_of_database (DatabaseError.sqlx e) = KromerError.database e
kromer_of_database (DatabaseError.name e) = KromerError.name e
kromer_of_database (DatabaseError.player e) = KromerError.player e
kromer_of_database (DatabaseError.transaction e) = KromerError.transaction e
kromer_of_database (DatabaseError.wallet e) = KromerError.wallet e
kromer_of_database (DatabaseError.generic e) = KromerError.validation (generic_to_string e)

name_status : NameError → ℕ
name_status (name_not_found _) = 404
name_status (not_name_owner _) = 401
name_status (name_taken _) = 409
name_status insufficient_balance = 402

player_status : PlayerError → ℕ
player_status PlayerError.not_found = 404

transaction_status : TransactionError → ℕ
transaction_status TransactionError.not_found = 404
transaction_status insufficient_funds = 400
transaction_status disabled = 403
transaction_status same_wallet_transfer = 403
transaction_status (conflict _) = 409

wallet_status : WalletError → ℕ
wallet_status (WalletError.not_found _) = 404
wallet_status auth_failed = 400

-- `impl ResponseError for KromerError`
unfoldable pub kromer_status : KromerError → ℕ
unfolding name_status player_status transaction_status wallet_status
kromer_status KromerError.not_found = 404
kromer_status (KromerError.database _) = 500
kromer_status (KromerError.wallet e) = wallet_status e
kromer_status (KromerError.transaction e) = transaction_status e
kromer_status (KromerError.name e) = name_status e
kromer_status (KromerError.player e) = player_status e
kromer_status (KromerError.validation _) = 400
kromer_status (KromerError.web_socket _) = 500
kromer_status (KromerError.internal _) = 500
kromer_status KromerError.io = 500
kromer_status (KromerError.json_payload s) = s

unfoldable pub kromer_code : KromerError → String
kromer_code KromerError.not_found = "resource_not_found_error"
kromer_code (KromerError.database _) = "database_error"
kromer_code (KromerError.wallet _) = "wallet_error"
kromer_code (KromerError.transaction _) = "transaction_error"
kromer_code (KromerError.player _) = "player_error"
kromer_code (KromerError.validation _) = "validation_error"
kromer_code (KromerError.name _) = "name_error"
kromer_code (KromerError.web_socket _) = "websocket_error"
kromer_code (KromerError.internal _) = "internal_error"
kromer_code KromerError.io = "io_error"
kromer_code (KromerError.json_payload _) = "json_payload_error"
