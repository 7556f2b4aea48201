-- ===== src/WebSockets/Routes.antt =====
-- The websocket routes, src/websockets/routes/*.rs. A route answers with a message and never fails;
-- an error of the database becomes an error message.
use kromer.Prelude.{
  ℕ, ℤ, pos, leb_ℤ, ltb_ℤ, String, Option, none, some, List, [], ◌∷◌, map, Bool, true, false, not,
  if◌then◌else◌,
}
use Prim.Native.String.{◌++◌}
use kromer.Database.{
  Wallet, VerifyResponse, Transaction, TransactionCreateData, default_data, transfer,
}
use kromer.Database.Externals.{Externals, Decimal}
use kromer.Database.Statements.{pool}
use kromer.Database.Transactions.{create}
use kromer.Database.Wallets.{fetch_by_address, verify_address}
use kromer.Exec.{Outcome, ok, err, panic, Exec, ◌>>=◌, ◌>>◌, pure, gets, lift, modify_server}
use kromer.Models.{address_json, transaction_json}
use kromer.Models.Messages.{
  WebSocketMessage, WebSocketMessageInner, WebSocketMessageResponse, WebSocketEvent, new_event,
}
use kromer.WebSockets.{
  WebSocketSubscriptionType, blocks, own_blocks, transactions, own_transactions, names, own_names,
  motd, WebSocketSessionData, WebSocketServer,
}
use kromer.WebSockets.Broadcast.{broadcast_event}
use kromer.WebSockets.Server.{
  get, update_at, subscribe_to_event, unsubscribe_from_event, get_subscription_list,
}
use kromer.WebSockets.Subscriptions.{from_str, into_string, is_guest}

-- A route has no error of its own.
abbrev pub Reply : Type 0
Reply = Exec ⊥ WebSocketMessage

abbrev pub answer_with : Option ℕ → WebSocketMessageResponse → WebSocketMessage
answer_with id r = record { ok = some true; id = id; inner = WebSocketMessageInner.response r }

abbrev pub refuse_with : Option ℕ → String → String → WebSocketMessage
refuse_with id e m = record { ok = some false; id = id; inner = WebSocketMessageInner.error e m }

-- `match … { Ok(a) => …, Err(_) => … }`
abbrev pub caught : {E A : Type 0} → Outcome E A → Outcome ⊥ (Option A)
caught (ok a) = ok (some a)
caught (err _) = ok none
caught panic = panic

unfoldable pub catch : {E A : Type 0} → Exec E A → Exec ⊥ (Option A)
catch m w = let (r, w') = m w in (caught r, w')

abbrev pub internal_error : Option ℕ → WebSocketMessage
internal_error id =
    refuse_with id "internal_server_error" "Something went wrong while processing your message"

abbrev pub database_error : Option ℕ → WebSocketMessage
database_error id = refuse_with id "database_error" "An error occured in the database"

abbrev pub address_not_found : Option ℕ → String → WebSocketMessage
address_not_found id a = refuse_with id "address_not_found" ("Address " ++ (a ++ " not found"))

abbrev pub session_not_found : Option ℕ → WebSocketMessage
session_not_found id = refuse_with id "session_not_found" "Session not found"

abbrev pub guest_login : Option ℕ → WebSocketMessage
guest_login id = answer_with id (WebSocketMessageResponse.login true none)

-- `sessions.update_sync(uuid, f).is_some()`
abbrev pub has_session : ℕ → WebSocketServer → Bool
has_session uuid s = elim (get uuid s.sessions) [ none ↦ false | some _ ↦ true ]

abbrev pub update_session :
    (WebSocketSessionData → WebSocketSessionData) → ℕ → WebSocketServer → WebSocketServer
update_session f uuid s = record s { sessions = update_at uuid f s.sessions }

abbrev pub logged_in : String → String → WebSocketSessionData → WebSocketSessionData
logged_in address key d = record d { address = address; private_key = some key }

abbrev pub logged_out : WebSocketSessionData → WebSocketSessionData
logged_out d = record d { address = "guest"; private_key = none }

-- `perform_logout`
unfoldable pub perform_logout : ℕ → Option ℕ → Reply
perform_logout uuid id = do
  there ← gets (λ w. has_session uuid w.server)
  modify_server (update_session logged_out uuid)
  pure (
      if there then answer_with id (WebSocketMessageResponse.logout true) else session_not_found id)

abbrev pub subscription_list : ℕ → WebSocketServer → List String
subscription_list uuid s = map into_string (get_subscription_list uuid s)

abbrev pub invalid_event : Option ℕ → WebSocketMessage
invalid_event id = refuse_with id "invalid_parameter" "Invalid parameter event"

abbrev pub subscribe_known : ℕ → Option ℕ → Option WebSocketSubscriptionType → Reply
subscribe_known uuid id none = pure (invalid_event id)
subscribe_known uuid id (some e) = do
  modify_server (subscribe_to_event uuid e)
  l ← gets (λ w. subscription_list uuid w.server)
  pure (answer_with id (WebSocketMessageResponse.subscribe l))

unfoldable pub subscribe : ℕ → String → Option ℕ → Reply
subscribe uuid event id = subscribe_known uuid id (from_str event)

-- The answer is the `Subscribe` variant, as in the source.
abbrev pub unsubscribe_known : ℕ → Option ℕ → Option WebSocketSubscriptionType → Reply
unsubscribe_known uuid id none = pure (invalid_event id)
unsubscribe_known uuid id (some e) = do
  modify_server (unsubscribe_from_event uuid e)
  l ← gets (λ w. subscription_list uuid w.server)
  pure (answer_with id (WebSocketMessageResponse.subscribe l))

unfoldable pub unsubscribe : ℕ → String → Option ℕ → Reply
unsubscribe uuid event id = unsubscribe_known uuid id (from_str event)

unfoldable pub get_subscription_level : ℕ → Option ℕ → Reply
get_subscription_level uuid id = do
  l ← gets (λ w. subscription_list uuid w.server)
  pure (answer_with id (WebSocketMessageResponse.get_subscription_level l))

unfoldable pub get_valid_subscription_levels : Option ℕ → WebSocketMessage
get_valid_subscription_levels id = answer_with id (
    WebSocketMessageResponse.get_valid_subscription_levels (
      map into_string
        (blocks ∷ own_blocks ∷ transactions ∷ own_transactions ∷ names ∷ own_names ∷ motd ∷ [])))

module _ (x : Externals) where
  -- A wallet that was looked up: a failed query, no such wallet, or the wallet.
  abbrev pub wallet_reply :
      Option ℕ → String → (Wallet → WebSocketMessage) → Option (Option Wallet) → WebSocketMessage
  wallet_reply id a f none = internal_error id
  wallet_reply id a f (some none) = address_not_found id a
  wallet_reply id a f (some (some w)) = f w

  -- `get_address`; the flag that asks for names is ignored.
  unfoldable pub get_address : String → Bool → Option ℕ → Reply
  get_address address _ id = do
    found ← catch (fetch_by_address pool address)
    pure (
        wallet_reply id address
          (λ w. answer_with id (WebSocketMessageResponse.address (address_json x w))) found)

  abbrev pub my_wallet : Option ℕ → WebSocketSessionData → Reply
  my_wallet id d = do
    found ← catch (fetch_by_address pool d.address)
    pure (
        wallet_reply id d.address
          (λ w. answer_with id (WebSocketMessageResponse.me false (some (address_json x w)))) found)

  abbrev pub myself : Option ℕ → Option WebSocketSessionData → Reply
  myself id none = lift panic
  myself id (some d) =
      if is_guest d
      then pure (answer_with id (WebSocketMessageResponse.me true none))
      else my_wallet id d

  unfoldable pub get_myself : ℕ → Option ℕ → Reply
  get_myself uuid id = do d ← gets (λ w. get uuid w.server.sessions); myself id d

  abbrev pub login_session : ℕ → String → Option ℕ → Wallet → Reply
  login_session uuid key id wallet = do
    there ← gets (λ w. has_session uuid w.server)
    modify_server (update_session (logged_in wallet.address key) uuid)
    pure (
        if there
        then answer_with id (WebSocketMessageResponse.login false (some (address_json x wallet)))
        else session_not_found id)

  abbrev pub login_verified : ℕ → String → Option ℕ → Option VerifyResponse → Reply
  login_verified uuid key id none = pure (guest_login id)
  login_verified uuid key id (some r) =
      if r.authed then login_session uuid key id r.wallet else pure (guest_login id)

  unfoldable pub perform_login : ℕ → String → Option ℕ → Reply
  perform_login uuid key id = do
    verified ← catch (verify_address x pool key)
    login_verified uuid key id verified

  abbrev pub payment : Wallet → Wallet → ℤ → Option String → TransactionCreateData
  payment sender recipient amount metadata = record default_data {
    from = sender.address;
    to = recipient.address;
    amount = amount;
    metadata = metadata;
    transaction_type = transfer;
  }

  abbrev pub announce : Option ℕ → Option Transaction → Reply
  announce id none = pure (database_error id)
  announce id (some t) = do
    broadcast_event (new_event (WebSocketEvent.transaction (transaction_json x t)))
    pure (answer_with id (WebSocketMessageResponse.make_transaction (transaction_json x t)))

  abbrev pub pay : Option ℕ → Wallet → Wallet → ℤ → Option String → Reply
  pay id sender recipient amount metadata =
      if ltb_ℤ sender.balance amount
      then pure (refuse_with id "insufficient_funds" "Insufficient funds")
      else do t ← catch (create (payment sender recipient amount metadata)); announce id t

  abbrev pub pay_found :
      Option ℕ → String → Wallet → ℤ → Option String → Option (Option Wallet) → Reply
  pay_found id to sender amount metadata none = pure (database_error id)
  pay_found id to sender amount metadata (some none) = pure (address_not_found id to)
  pay_found id to sender amount metadata (some (some r)) = pay id sender r amount metadata

  abbrev pub pay_verified : Option ℕ → String → ℤ → Option String → Option VerifyResponse → Reply
  pay_verified id to amount metadata none = pure (database_error id)
  pay_verified id to amount metadata (some r) =
      if not r.authed
      then pure (refuse_with id "invalid_parameter" "Invalid parameter privatekey")
      else do
        found ← catch (fetch_by_address pool to)
        pay_found id to r.wallet amount metadata found

  unfoldable pub make_transaction : String → String → Decimal → Option String → Option ℕ → Reply
  make_transaction key to raw metadata id =
      let amount = x.round_dp2 raw in
      if leb_ℤ amount (pos 0)
      then pure (refuse_with id "invalid_parameter" "Invalid parameter amount")
      else do
        verified ← catch (verify_address x pool key)
        pay_verified id to amount metadata verified
