-- ===== src/WebSockets/Stable/Messages.antt =====
-- The messages of src/websockets/handler.rs keep every predicate on the server that is stable.
use kromer.Prelude.{
  ℕ, ℤ, String, Option, none, some, List, [], ◌∷◌, Bool, true, false, push, if◌then◌else◌,
}
use mathlib.Core.Option
use kromer.Database.{Wallet, VerifyResponse, TransactionCreateData}
use kromer.Database.Externals.{Externals, Decimal}
use kromer.Database.Statements.{Executor, pool, tx}
use kromer.Database.Transactions.{create, create_impl}
use kromer.Database.Wallets.{
  fetch_by_address, verify_address, acquire, or_create, create_wallet, update_balance,
}
use kromer.Exec.{ok, panic, World, modify_server, lift}
use kromer.Exec.Ensures.{After}
use kromer.Models.Messages.{WebSocketMessage, WebSocketMessageInner}
use kromer.WebSockets.{WebSocketServer, WebSocketSessionData, WebSocketSubscriptionType}
use kromer.WebSockets.Broadcast.{broadcast_event, broadcast_to, deliver, deliver_all, recipients}
use kromer.WebSockets.Handler.{dispatch, pay_with}
use kromer.WebSockets.Routes.{
  update_session, perform_logout, subscribe_known, subscribe, unsubscribe_known, unsubscribe,
  get_subscription_level, get_address, myself, get_myself, login_verified, perform_login, announce,
  pay_found, pay_verified, make_transaction,
}
use kromer.WebSockets.Server.{
  cleanup_session, subscribe_to_event, unsubscribe_from_event, subscribing, unsubscribing,
}
use kromer.WebSockets.Stable.{Stable, Serving, Leaves, server_rules}

module _ {S : WebSocketServer → Type 0} (stable : Stable S) where
  pub deliver_all-Stable :
      (m : WebSocketMessage) (rs : List (ℕ × WebSocketSessionData)) (s : WebSocketServer)
      → S s
      → S (deliver_all m rs s)
  unfolding deliver_all
  deliver_all-Stable m [] s h = h
  deliver_all-Stable m ((k, d) ∷ rs) s h =
      deliver_all-Stable m rs (deliver m (k, d) s) (one d.closed)
    where
      one :
          (b : Bool)
          → S (if b then cleanup_session k s else record s { outbox = push s.outbox (k, m) })
      one true = stable.cleaned k s h
      one false = stable.sent _ s h

  changes :
      {E : Type 0} (f : WebSocketServer → WebSocketServer)
      → ((s : WebSocketServer) → S s → S (f s))
      → Leaves S (modify_server {E = E} f)
  unfolding modify_server
  changes f k = record { at = λ w h. record { holds = k w.server h.holds } }

  announced :
      (E : Type 0) (m : WebSocketMessage) (w : World) (o : Option (List (ℕ × WebSocketSessionData)))
      → Serving S w
      → After {E = E} {A = Unit {0}}
          (λ _. Serving S)
          (Serving S)
          (elim (Option.map (λ rs. deliver_all m rs w.server) o) [
            | none ↦ (panic, w)
            | some s ↦ (ok tt, record w { server = s })
          ])
  announced E m w none h = h
  announced E m w (some rs) h = record { holds = deliver_all-Stable m rs w.server h.holds }

  pub broadcast_event-Leaves :
      {E : Type 0} (m : WebSocketMessage) → Leaves S (broadcast_event {E = E} m)
  unfolding broadcast_event broadcast_to
  broadcast_event-Leaves m = record {
    at = λ w h. announced _ m w (recipients m.inner w.server.sessions) h;
  }

  session-Leaves :
      (uuid : ℕ) (f : WebSocketSessionData → WebSocketSessionData)
      → Leaves S (modify_server {E = ⊥} (update_session f uuid))
  session-Leaves uuid f = changes (update_session f uuid) (stable.updated uuid f)

  subscribe-Leaves :
      (uuid : ℕ) (e : WebSocketSubscriptionType)
      → Leaves S (modify_server {E = ⊥} (subscribe_to_event uuid e))
  unfolding subscribe_to_event
  subscribe-Leaves uuid e = changes _ (stable.updated uuid (subscribing e))

  unsubscribe-Leaves :
      (uuid : ℕ) (e : WebSocketSubscriptionType)
      → Leaves S (modify_server {E = ⊥} (unsubscribe_from_event uuid e))
  unfolding unsubscribe_from_event
  unsubscribe-Leaves uuid e = changes _ (stable.updated uuid (unsubscribing e))

module _ {S : WebSocketServer → Type 0} (stable : Stable S) (x : Externals) where
  pub fetch_by_address-Leaves : (ex : Executor) (a : String) → Leaves S (fetch_by_address ex a)
  unfolding fetch_by_address
  fetch_by_address-Leaves ex a = search server_rules

  or_create-Leaves :
      (ex : Executor) (a hash : String) (o : Option Wallet) → Leaves S (or_create x ex a hash o)
  unfolding create_wallet
  or_create-Leaves ex a hash none = search server_rules
  or_create-Leaves ex a hash (some w) = search server_rules

  pub verify_address-Leaves : (ex : Executor) (key : String) → Leaves S (verify_address x ex key)
  unfolding verify_address acquire
  verify_address-Leaves pool key = search (server_rules, fetch_by_address-Leaves, or_create-Leaves)
  verify_address-Leaves tx key = search (server_rules, fetch_by_address-Leaves, or_create-Leaves)

  update_balance-Leaves : (w : Wallet) (d : ℤ) → Leaves S (update_balance w tx d)
  unfolding update_balance
  update_balance-Leaves w d = search server_rules

  pub create_impl-Leaves : (d : TransactionCreateData) → Leaves S (create_impl d)
  unfolding create_impl
  create_impl-Leaves d =
      search (server_rules, fetch_by_address-Leaves, update_balance-Leaves) depth 16

  create-Leaves : (d : TransactionCreateData) → Leaves S (create d)
  unfolding create
  create-Leaves d = search (server_rules, create_impl-Leaves) depth 10

  get_address-Leaves : (a : String) (f : Bool) (id : Option ℕ) → Leaves S (get_address x a f id)
  unfolding get_address
  get_address-Leaves a f id = search (server_rules, fetch_by_address-Leaves)

  myself-Leaves : (id : Option ℕ) (d : Option WebSocketSessionData) → Leaves S (myself x id d)
  unfolding lift
  myself-Leaves id none = record { at = λ w h. h }
  myself-Leaves id (some d) = search (server_rules, fetch_by_address-Leaves) depth 9

  get_myself-Leaves : (uuid : ℕ) (id : Option ℕ) → Leaves S (get_myself x uuid id)
  unfolding get_myself
  get_myself-Leaves uuid id = search (server_rules, myself-Leaves)

  login_verified-Leaves :
      (uuid : ℕ) (key : String) (id : Option ℕ) (r : Option VerifyResponse)
      → Leaves S (login_verified x uuid key id r)
  login_verified-Leaves uuid key id none = search server_rules
  login_verified-Leaves uuid key id (some r) = search (server_rules, session-Leaves stable) depth 10

  perform_login-Leaves :
      (uuid : ℕ) (key : String) (id : Option ℕ) → Leaves S (perform_login x uuid key id)
  unfolding perform_login
  perform_login-Leaves uuid key id =
      search (server_rules, verify_address-Leaves, login_verified-Leaves)

  announce-Leaves : (id : Option ℕ) (t : _) → Leaves S (announce x id t)
  announce-Leaves id none = search server_rules
  announce-Leaves id (some t) = search (server_rules, broadcast_event-Leaves stable)

  pay_found-Leaves :
      (id : Option ℕ) (to : String) (sender : Wallet) (amount : ℤ) (metadata : Option String)
      (r : Option (Option Wallet))
      → Leaves S (pay_found x id to sender amount metadata r)
  pay_found-Leaves id to sender amount metadata none = search server_rules
  pay_found-Leaves id to sender amount metadata (some none) = search server_rules
  pay_found-Leaves id to sender amount metadata (some (some r)) =
      search (server_rules, create-Leaves, announce-Leaves) depth 10

  pay_verified-Leaves :
      (id : Option ℕ) (to : String) (amount : ℤ) (metadata : Option String)
      (r : Option VerifyResponse)
      → Leaves S (pay_verified x id to amount metadata r)
  pay_verified-Leaves id to amount metadata none = search server_rules
  pay_verified-Leaves id to amount metadata (some r) =
      search (server_rules, fetch_by_address-Leaves, pay_found-Leaves) depth 10

  make_transaction-Leaves :
      (key to : String) (raw : Decimal) (metadata : Option String) (id : Option ℕ)
      → Leaves S (make_transaction x key to raw metadata id)
  unfolding make_transaction
  make_transaction-Leaves key to raw metadata id =
      search (server_rules, verify_address-Leaves, pay_verified-Leaves) depth 10

  pay_with-Leaves :
      (to : String) (amount : Decimal) (metadata : Option String) (id : Option ℕ)
      (key : Option String)
      → Leaves S (pay_with x to amount metadata id key)
  pay_with-Leaves to amount metadata id none = search server_rules
  pay_with-Leaves to amount metadata id (some key) = search make_transaction-Leaves

  subscribe_known-Leaves :
      (uuid : ℕ) (id : Option ℕ) (e : Option WebSocketSubscriptionType)
      → Leaves S (subscribe_known uuid id e)
  subscribe_known-Leaves uuid id none = search server_rules
  subscribe_known-Leaves uuid id (some e) = search (server_rules, subscribe-Leaves stable) depth 10

  unsubscribe_known-Leaves :
      (uuid : ℕ) (id : Option ℕ) (e : Option WebSocketSubscriptionType)
      → Leaves S (unsubscribe_known uuid id e)
  unsubscribe_known-Leaves uuid id none = search server_rules
  unsubscribe_known-Leaves uuid id (some e) =
      search (server_rules, unsubscribe-Leaves stable) depth 10

  -- Any message of a client.
  pub dispatch-Leaves :
      (uuid : ℕ) (id : Option ℕ) (m : WebSocketMessageInner) → Leaves S (dispatch x uuid id m)
  unfolding dispatch perform_logout subscribe unsubscribe get_subscription_level
  dispatch-Leaves uuid id (WebSocketMessageInner.address a f) = search get_address-Leaves
  dispatch-Leaves uuid id (WebSocketMessageInner.login key) = search perform_login-Leaves
  dispatch-Leaves uuid id WebSocketMessageInner.logout =
      search (server_rules, session-Leaves stable)
  dispatch-Leaves uuid id WebSocketMessageInner.me = search get_myself-Leaves
  dispatch-Leaves uuid id (WebSocketMessageInner.subscribe e) = search subscribe_known-Leaves
  dispatch-Leaves uuid id WebSocketMessageInner.get_subscription_level = search server_rules
  dispatch-Leaves uuid id WebSocketMessageInner.get_valid_subscription_levels = search server_rules
  dispatch-Leaves uuid id (WebSocketMessageInner.unsubscribe e) = search unsubscribe_known-Leaves
  dispatch-Leaves uuid id (WebSocketMessageInner.make_transaction key to amount metadata) =
      search (server_rules, pay_with-Leaves)
  dispatch-Leaves uuid id _ = search server_rules
