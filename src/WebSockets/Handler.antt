-- ===== src/WebSockets/Handler.antt =====
-- `process_text_msg` of src/websockets/handler.rs, and the text branch of the gateway's message loop
-- in src/routes/krist/ws.rs. The JSON parser is a parameter: `none` is a text that it refuses.
use kromer.Prelude.{ℕ, String, Option, none, some, true, false}
use mathlib.Core.Option
use kromer.Database.Externals.{Externals, Decimal}
use kromer.Errors.{KromerError, web_socket, json_parse_read}
use kromer.Exec.{Outcome, ok, err, panic, Exec, ◌>>=◌, pure, throw, gets}
use kromer.Models.Messages.{WebSocketMessage, WebSocketMessageInner}
use kromer.Validation.{trim}
use kromer.WebSockets.{WebSocketSessionData}
use kromer.WebSockets.Routes.{
  Reply, refuse_with, get_address, perform_login, perform_logout, get_myself, subscribe,
  unsubscribe, get_subscription_level, get_valid_subscription_levels, make_transaction,
}
use kromer.WebSockets.Server.{fetch_session_data}

-- The key of a payment: the message's, or else the session's.
abbrev pub key_or_session : Option String → Option WebSocketSessionData → Option String
key_or_session (some k) _ = some k
key_or_session none none = none
key_or_session none (some d) = d.private_key

abbrev pub error_reply : Option ℕ → String → String → WebSocketMessage
error_reply id e m = record { ok = some true; id = id; inner = WebSocketMessageInner.error e m }

abbrev pub unauthorized : Option ℕ → WebSocketMessage
unauthorized id = refuse_with id "unauthorized" "You are not logged in."

-- A reply never fails, so it may stand where failures are allowed.
abbrev pub widen : {E A : Type 0} → Outcome ⊥ A → Outcome E A
widen (ok a) = ok a
widen (err e) = absurd e
widen panic = panic

module _ (x : Externals) where
  abbrev pub pay_with : String → Decimal → Option String → Option ℕ → Option String → Reply
  pay_with to amount metadata id none = pure (unauthorized id)
  pay_with to amount metadata id (some key) = make_transaction x key to amount metadata id

  unfoldable pub dispatch : ℕ → Option ℕ → WebSocketMessageInner → Reply
  dispatch uuid id (WebSocketMessageInner.address a fetch_names) =
      get_address x a (Option.get_or fetch_names false) id
  dispatch uuid id (WebSocketMessageInner.login key) = perform_login x uuid key id
  dispatch uuid id WebSocketMessageInner.logout = perform_logout uuid id
  dispatch uuid id WebSocketMessageInner.me = get_myself x uuid id
  dispatch uuid id (WebSocketMessageInner.subscribe event) = subscribe uuid event id
  dispatch uuid id WebSocketMessageInner.get_subscription_level = get_subscription_level uuid id
  dispatch uuid id WebSocketMessageInner.get_valid_subscription_levels =
      pure (get_valid_subscription_levels id)
  dispatch uuid id (WebSocketMessageInner.unsubscribe event) = unsubscribe uuid event id
  dispatch uuid id (WebSocketMessageInner.make_transaction key to amount metadata) = do
    d ← gets (λ w. fetch_session_data uuid w.server)
    pay_with to amount metadata id (key_or_session key d)
  dispatch uuid id WebSocketMessageInner.work =
      pure (error_reply id "mining_disabled" "Mining disabled")
  dispatch uuid id _ = pure (error_reply id "invalid_message_type" "Invalid message type")

  abbrev pub dispatch_parsed : ℕ → Option WebSocketMessage → Exec KromerError WebSocketMessage
  dispatch_parsed uuid none w = throw (web_socket json_parse_read) w
  dispatch_parsed uuid (some m) w = let (r, w') = dispatch uuid m.id m.inner w in (widen r, w')

  unfoldable pub process_text_msg :
      (String → Option WebSocketMessage) → ℕ → String → Exec KromerError WebSocketMessage
  process_text_msg parse_json uuid text = dispatch_parsed uuid (parse_json (trim text))
