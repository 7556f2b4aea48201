-- ===== src/Models/Messages.antt =====
-- The websocket messages of src/models/krist/websockets.rs. A block event's data is never
-- built, so it carries no fields.
use kromer.Prelude.{ℕ, String, Option, none, List, Bool}
use kromer.Database.Externals.{Decimal}
use kromer.Models.Motd.{DetailedMotd}
use kromer.Models.{TransactionJson, NameJson, AddressJson}

pub data WebSocketMessageResponse : Type 0 where
  work : ℕ → WebSocketMessageResponse
  make_transaction : TransactionJson → WebSocketMessageResponse
  get_valid_subscription_levels : List String → WebSocketMessageResponse
  address : AddressJson → WebSocketMessageResponse
  me : Bool → Option AddressJson → WebSocketMessageResponse
  get_subscription_level : List String → WebSocketMessageResponse
  logout : Bool → WebSocketMessageResponse
  login : Bool → Option AddressJson → WebSocketMessageResponse
  subscribe : List String → WebSocketMessageResponse
  unsubscribe : List String → WebSocketMessageResponse

pub data WebSocketEvent : Type 0 where
  block : WebSocketEvent
  transaction : TransactionJson → WebSocketEvent
  name : NameJson → WebSocketEvent

pub data WebSocketMessageInner : Type 0 where
  hello : DetailedMotd → WebSocketMessageInner
  keepalive : Option String → WebSocketMessageInner
  response : WebSocketMessageResponse → WebSocketMessageInner
  error : String → String → WebSocketMessageInner
  event : WebSocketEvent → WebSocketMessageInner
  work : WebSocketMessageInner
  make_transaction : Option String → String → Decimal → Option String → WebSocketMessageInner
  get_valid_subscription_levels : WebSocketMessageInner
  address : String → Option Bool → WebSocketMessageInner
  me get_subscription_level logout : WebSocketMessageInner
  login : String → WebSocketMessageInner
  subscribe unsubscribe : String → WebSocketMessageInner

pub record WebSocketMessage : Type 0 where
  pub ok : Option Bool
  pub id : Option ℕ
  pub inner : WebSocketMessageInner

-- `WebSocketMessage::new_event`
unfoldable pub new_event : WebSocketEvent → WebSocketMessage
new_event e = record { ok = none; id = none; inner = WebSocketMessageInner.event e }

-- `WebSocketMessageInner::member_str`
unfoldable pub member_str : WebSocketMessageInner → String
member_str (WebSocketMessageInner.address _ _) = "address"
member_str (WebSocketMessageInner.login _) = "login"
member_str WebSocketMessageInner.logout = "logout"
member_str WebSocketMessageInner.me = "me"
member_str (WebSocketMessageInner.subscribe _) = "subscribe"
member_str WebSocketMessageInner.get_subscription_level = "get_subscription_level"
member_str WebSocketMessageInner.get_valid_subscription_levels = "get_valid_subscription_levels"
member_str (WebSocketMessageInner.unsubscribe _) = "unsubscribe"
member_str (WebSocketMessageInner.make_transaction _ _ _ _) = "make_transaction"
member_str WebSocketMessageInner.work = "work"
member_str (WebSocketMessageInner.hello _) = "hello"
member_str (WebSocketMessageInner.error _ _) = "error"
member_str (WebSocketMessageInner.response _) = "response"
member_str (WebSocketMessageInner.keepalive _) = "keepalive"
member_str (WebSocketMessageInner.event _) = "event"
