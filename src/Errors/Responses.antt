-- ===== src/Errors/Responses.antt =====
-- The answers to errors of the Krist routes: `error_response` of src/errors/krist.rs and
-- src/errors/krist/*.rs, with the texts of the errors. The text of an error of another crate (the
-- database, the parsers of the body and of the path) is a parameter.
use Prim.Native.String.{◌++◌}
use kromer.Prelude.{ℕ, String, Option, none, Bool, false, ◌≡◌, refl}
use kromer.Errors.{GenericError, generic_to_string}
use kromer.Errors.Krist.{
  AddressError, NameError, TransactionError, WebSocketError, KristError, name_not_found, name_taken,
  not_name_owner, insufficient_balance, insufficient_funds, disabled, same_wallet_transfer,
  conflict, invalid_websocket_token, handshake_error, address, generic, name, transaction,
  web_socket, custom, address_type, address_status, generic_type, generic_status, name_type,
  name_status, transaction_type, transaction_status, web_socket_type, web_socket_status, error_type,
  status_code,
}

pub record KristErrorResponse : Type 0 where
  pub ok : Bool
  pub error : String
  pub message : String
  pub info : Option String

-- An answer: its status and its body.
pub record ErrorAnswer : Type 0 where
  pub status : ℕ
  pub body : KristErrorResponse

abbrev pub answer_error : ℕ → String → String → ErrorAnswer
answer_error status error message = record {
  status = status;
  body = record { ok = false; error = error; message = message; info = none };
}

unfoldable pub address_to_string : AddressError → String
address_to_string (AddressError.not_found a) = "Address " ++ (a ++ " not found")
address_to_string AddressError.auth_failed = "Authentication failed"

unfoldable pub name_to_string : NameError → String
name_to_string (name_not_found n) = "Name " ++ (n ++ " not found")
name_to_string (name_taken n) = "Name " ++ (n ++ " is already taken")
name_to_string (not_name_owner n) = "You are not the owner of name " ++ n
name_to_string insufficient_balance = "Insufficient balance to purchase name"

unfoldable pub transaction_to_string : TransactionError → String
transaction_to_string insufficient_funds = "Insufficient funds"
transaction_to_string TransactionError.not_found = "Transaction not found"
transaction_to_string disabled = "Transactions disabled"
transaction_to_string same_wallet_transfer = "Same wallet transfer is not allowed"
transaction_to_string (conflict p) = "Transaction conflict for parameter " ++ p

unfoldable pub web_socket_to_string : WebSocketError → String
web_socket_to_string invalid_websocket_token = "Invalid websocket token"
web_socket_to_string handshake_error = "Failed to create a WebSocket handshake"

unfoldable pub address_response : AddressError → ErrorAnswer
address_response e = answer_error (address_status e) (address_type e) (address_to_string e)

unfoldable pub generic_response : GenericError → ErrorAnswer
generic_response e = answer_error (generic_status e) (generic_type e) (generic_to_string e)

unfoldable pub name_response : NameError → ErrorAnswer
name_response e = answer_error (name_status e) (name_type e) (name_to_string e)

unfoldable pub transaction_response : TransactionError → ErrorAnswer
transaction_response e =
    answer_error (transaction_status e) (transaction_type e) (transaction_to_string e)

unfoldable pub web_socket_response : WebSocketError → ErrorAnswer
web_socket_response e =
    answer_error (web_socket_status e) (web_socket_type e) (web_socket_to_string e)

unfoldable pub error_response : (KristError → String) → KristError → ErrorAnswer
unfolding address_response generic_response name_response transaction_response web_socket_response
error_response text (address e) = address_response e
error_response text (generic e) = generic_response e
error_response text (name e) = name_response e
error_response text (transaction e) = transaction_response e
error_response text (web_socket e) = web_socket_response e
error_response text (custom e) = answer_error 400 e e
error_response text e = answer_error (status_code e) (error_type e) (text e)

-- Every error is answered with its own status and name, and never with `ok`.
error_response-status_code :
    (text : KristError → String) (e : KristError)
    → ((error_response text e).status ≡ status_code e)
      × (((error_response text e).body.error ≡ error_type e)
          × ((error_response text e).body.ok ≡ false))
unfolding error_response status_code error_type
error_response-status_code text (address e) = (refl, (refl, refl))
error_response-status_code text (generic e) = (refl, (refl, refl))
error_response-status_code text (name e) = (refl, (refl, refl))
error_response-status_code text (transaction e) = (refl, (refl, refl))
error_response-status_code text (web_socket e) = (refl, (refl, refl))
error_response-status_code text (custom e) = (refl, (refl, refl))
error_response-status_code text (KristError.database e) = (refl, (refl, refl))
error_response-status_code text KristError.json_payload = (refl, (refl, refl))
error_response-status_code text KristError.path = (refl, (refl, refl))
