-- ===== src/WebSockets/Keeps.antt =====
-- The client messages of src/websockets/handler.rs and the committed tables: the messages go through
-- the pool, and a payment through a transaction of its own.
use kromer.Prelude.{ℕ, ℤ, String, Option, none, some, Bool}
use kromer.Database.{Tables, Wallet, VerifyResponse, TransactionCreateData}
use kromer.Database.Externals.{Externals, Decimal}
use kromer.Database.Statements.{pool}
use kromer.Database.Transactions.{create}
use kromer.Database.Wallets.{fetch_by_address, verify_address, acquire, or_create, create_wallet}
use kromer.Database.Closed.{Rows, Moves}
use kromer.Database.Keeps.{Safe, Keeps-commit}
use kromer.Database.Stays.{Stays, same_state, Stays-trip, Stays-query, Stays-insert, begin-Starts}
use kromer.Exec.{from_sqlx, Outcome, ok, err, panic, World, Exec, gets, modify_server, lift}
use kromer.Exec.Ensures.{
  After, Ensures, Ensures-pure, Keeps-pure, Ensures-throw, Ensures-if, Ensures-bind, Keeps-bind,
  Ensures-map_err, Ensures-scoped,
}
use kromer.Models.Messages.{WebSocketMessage, WebSocketMessageInner}
use kromer.WebSockets.{WebSocketServer, WebSocketSessionData, WebSocketSubscriptionType}
use kromer.WebSockets.Broadcast.{broadcast_event, broadcast_to}
use kromer.WebSockets.Handler.{dispatch, pay_with}
use kromer.WebSockets.Routes.{
  catch, caught, perform_logout, subscribe_known, subscribe, unsubscribe_known, unsubscribe,
  get_subscription_level, get_address, myself, get_myself, login_verified, perform_login, announce,
  pay_found, pay_verified, make_transaction,
}

module _ {C : Tables → Type 0} where
  pub Stays-modify_server :
      {E : Type 0} (f : WebSocketServer → WebSocketServer) → Stays C (modify_server {E = E} f)
  unfolding modify_server
  Stays-modify_server f = record { at = λ w h. record { outside = h.outside } }

  pub Stays-gets : {E A : Type 0} (f : World → A) → Stays C (gets {E = E} f)
  unfolding gets
  Stays-gets f = record { at = λ w h. h }

  broadcast-After :
      (E : Type 0) (o : Option WebSocketServer) (w : World)
      → Safe C w
      → After {E = E} {A = Unit {0}}
          (λ _. Safe C)
          (Safe C)
          (elim o [ none ↦ (panic, w) | some s ↦ (ok tt, record w { server = s }) ])
  broadcast-After E none w h = h
  broadcast-After E (some s) w h = record { outside = h.outside }

  pub Stays-broadcast_event :
      {E : Type 0} (m : WebSocketMessage) → Stays C (broadcast_event {E = E} m)
  unfolding broadcast_event
  Stays-broadcast_event m = record { at = λ w h. broadcast-After _ (broadcast_to m w.server) w h }

module _ {E A : Type 0} (C : Tables → Type 0) where
  caught-After :
      (r : Outcome E A) (w : World)
      → After (λ _. Safe C) (Safe C) (r, w)
      → After (λ _. Safe C) (Safe C) (caught r, w)
  caught-After (ok a) w h = h
  caught-After (err e) w h = h
  caught-After panic w h = h

module _ {E A : Type 0} {C : Tables → Type 0} where
  -- An error that becomes a reply leaves what the failed action leaves.
  pub Stays-catch : (m : Exec E A) → Stays C m → Stays C (catch m)
  unfolding catch
  Stays-catch m hm = record { at = λ w h. let (r, w') = m w in caught-After C r w' (hm.at w h) }

pub ruleset stays_rules = (
  same_state, Keeps-pure, Ensures-throw, Ensures-if, Keeps-bind, Ensures-map_err, Stays-trip,
  Stays-query, Stays-catch, Stays-broadcast_event, Stays-gets, Stays-modify_server,
)

pub fetch_by_address-Stays : {C : Tables → Type 0} (a : String) → Stays C (fetch_by_address pool a)
unfolding fetch_by_address
fetch_by_address-Stays a = search stays_rules

-- A message that is not a payment.
abbrev pub IsQuiet : WebSocketMessageInner → Type 0
IsQuiet (WebSocketMessageInner.make_transaction key to amount metadata) = ⊥
IsQuiet _ = Unit

module _ {Good : Tables → Type 0} (rows : Rows Good) (x : Externals) where
  or_create-Stays : (a hash : String) (o : Option Wallet) → Stays Good (or_create x pool a hash o)
  unfolding create_wallet
  or_create-Stays a hash none =
      Ensures-map_err from_sqlx _ (Stays-insert _ _ (rows.wallet_inserted a hash))
  or_create-Stays a hash (some w) = search stays_rules

  pub verify_address-Stays : (key : String) → Stays Good (verify_address x pool key)
  unfolding verify_address acquire
  verify_address-Stays key = search (stays_rules, fetch_by_address-Stays, or_create-Stays)

  get_address-Stays : (a : String) (f : Bool) (id : Option ℕ) → Stays Good (get_address x a f id)
  unfolding get_address
  get_address-Stays a f id = search (stays_rules, fetch_by_address-Stays)

  myself-Stays : (id : Option ℕ) (d : Option WebSocketSessionData) → Stays Good (myself x id d)
  unfolding lift
  myself-Stays id none = record { at = λ w h. h }
  myself-Stays id (some d) = search (stays_rules, fetch_by_address-Stays) depth 9

  get_myself-Stays : (uuid : ℕ) (id : Option ℕ) → Stays Good (get_myself x uuid id)
  unfolding get_myself
  get_myself-Stays uuid id = search (stays_rules, myself-Stays)

  login_verified-Stays :
      (uuid : ℕ) (key : String) (id : Option ℕ) (r : Option VerifyResponse)
      → Stays Good (login_verified x uuid key id r)
  login_verified-Stays uuid key id none = search stays_rules
  login_verified-Stays uuid key id (some r) = search stays_rules depth 10

  perform_login-Stays :
      (uuid : ℕ) (key : String) (id : Option ℕ) → Stays Good (perform_login x uuid key id)
  unfolding perform_login
  perform_login-Stays uuid key id = search (stays_rules, verify_address-Stays, login_verified-Stays)

  pub announce-Stays : (id : Option ℕ) (t : _) → Stays Good (announce x id t)
  announce-Stays id none = search stays_rules
  announce-Stays id (some t) = search stays_rules

  subscribe_known-Stays :
      (uuid : ℕ) (id : Option ℕ) (e : Option WebSocketSubscriptionType)
      → Stays Good (subscribe_known uuid id e)
  subscribe_known-Stays uuid id none = search stays_rules
  subscribe_known-Stays uuid id (some e) = search stays_rules depth 10

  unsubscribe_known-Stays :
      (uuid : ℕ) (id : Option ℕ) (e : Option WebSocketSubscriptionType)
      → Stays Good (unsubscribe_known uuid id e)
  unsubscribe_known-Stays uuid id none = search stays_rules
  unsubscribe_known-Stays uuid id (some e) = search stays_rules depth 10

  pub quiet-Stays :
      (uuid : ℕ) (id : Option ℕ) (m : WebSocketMessageInner)
      → IsQuiet m
      → Stays Good (dispatch x uuid id m)
  unfolding dispatch perform_logout subscribe unsubscribe get_subscription_level
  quiet-Stays uuid id (WebSocketMessageInner.address a f) quiet = search get_address-Stays
  quiet-Stays uuid id (WebSocketMessageInner.login key) quiet = search perform_login-Stays
  quiet-Stays uuid id WebSocketMessageInner.logout quiet = search stays_rules
  quiet-Stays uuid id WebSocketMessageInner.me quiet = search get_myself-Stays
  quiet-Stays uuid id (WebSocketMessageInner.subscribe e) quiet = search subscribe_known-Stays
  quiet-Stays uuid id WebSocketMessageInner.get_subscription_level quiet = search stays_rules
  quiet-Stays uuid id WebSocketMessageInner.get_valid_subscription_levels quiet = search stays_rules
  quiet-Stays uuid id (WebSocketMessageInner.unsubscribe e) quiet = search unsubscribe_known-Stays
  quiet-Stays uuid id (WebSocketMessageInner.make_transaction key to amount metadata) quiet =
      absurd quiet
  quiet-Stays uuid id _ quiet = search stays_rules

  -- Any message of a client, if a payment keeps the predicate.
  pub dispatch-Stays :
      ((to : String) (amount : Decimal) (metadata : Option String) (id : Option ℕ)
          (key : Option String)
        → Stays Good (pay_with x to amount metadata id key))
      → (uuid : ℕ) (id : Option ℕ) (m : WebSocketMessageInner) → Stays Good (dispatch x uuid id m)
  unfolding dispatch
  dispatch-Stays pay uuid id (WebSocketMessageInner.make_transaction key to amount metadata) =
      search (stays_rules, pay)
  dispatch-Stays pay uuid id m = quiet-Stays uuid id m tt

module _ {Good : Tables → Type 0} (moves : Moves Good) (x : Externals) where
  create-Stays : (d : TransactionCreateData) → Stays Good (create d)
  unfolding create
  create-Stays d =
      Ensures-scoped _ (λ a w b. record { outside = b.outside })
        (λ w s. record { outside = s.outside })
        (Ensures-bind _ _ (Ensures-map_err from_sqlx _ begin-Starts) λ _.
          Ensures-bind _ _ (moves.money_moved Good d)
            λ m. Ensures-bind _ _ (Ensures-map_err from_sqlx _ Keeps-commit) λ _. Keeps-pure m)

  pay_found-Stays :
      (id : Option ℕ) (to : String) (sender : Wallet) (amount : ℤ) (metadata : Option String)
      (r : Option (Option Wallet))
      → Stays Good (pay_found x id to sender amount metadata r)
  pay_found-Stays id to sender amount metadata none = search stays_rules
  pay_found-Stays id to sender amount metadata (some none) = search stays_rules
  pay_found-Stays id to sender amount metadata (some (some r)) =
      search (stays_rules, create-Stays, announce-Stays moves.rows x) depth 10

  pay_verified-Stays :
      (id : Option ℕ) (to : String) (amount : ℤ) (metadata : Option String)
      (r : Option VerifyResponse)
      → Stays Good (pay_verified x id to amount metadata r)
  pay_verified-Stays id to amount metadata none = search stays_rules
  pay_verified-Stays id to amount metadata (some r) =
      search (stays_rules, fetch_by_address-Stays, pay_found-Stays) depth 10

  make_transaction-Stays :
      (key to : String) (raw : Decimal) (metadata : Option String) (id : Option ℕ)
      → Stays Good (make_transaction x key to raw metadata id)
  unfolding make_transaction
  make_transaction-Stays key to raw metadata id =
      search (stays_rules, verify_address-Stays moves.rows x, pay_verified-Stays) depth 10

  pub pay_with-Stays :
      (to : String) (amount : Decimal) (metadata : Option String) (id : Option ℕ)
      (key : Option String)
      → Stays Good (pay_with x to amount metadata id key)
  pay_with-Stays to amount metadata id none = search stays_rules
  pay_with-Stays to amount metadata id (some key) = search make_transaction-Stays
