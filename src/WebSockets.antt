-- ===== src/WebSockets.antt =====
-- The websocket server's state: src/websockets/mod.rs and src/websockets/types/common.rs. The
-- concurrent maps are association lists by UUID; a session keeps whether its peer is still there,
-- which decides whether a send succeeds, and the messages that were sent are in `outbox`.
pub mod Subscriptions
pub mod Server
pub mod Broadcast
pub mod Routes
pub mod Handler
pub mod Keeps
pub mod Caught
pub mod Delivery
pub mod Sessions
pub mod Stable
use kromer.Prelude.{ℕ, ℤ, String, Option, List, Bool}
use kromer.Models.Messages.{WebSocketMessage}

pub data WebSocketSubscriptionType : Type 0 where
  blocks own_blocks transactions own_transactions names own_names motd : WebSocketSubscriptionType

pub record WebSocketTokenData : Type 0 where
  pub address : String
  pub private_key : Option String
  pub computer_id : Option ℤ

pub record WebSocketSessionData : Type 0 where
  pub address : String
  pub private_key : Option String
  -- `actix_ws::Session`: whether `text` returns `Err(Closed)`
  pub closed : Bool
  pub subscriptions : List WebSocketSubscriptionType
  pub computer_id : Option ℤ

pub record WebSocketServer : Type 0 where
  pub sessions : List (ℕ × WebSocketSessionData)
  pub pending_tokens : List (ℕ × WebSocketTokenData)
  pub outbox : List (ℕ × WebSocketMessage)
