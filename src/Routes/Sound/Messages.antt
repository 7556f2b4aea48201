-- ===== src/Routes/Sound/Messages.antt =====
-- The messages of a client, and with them every request of Routes/Serving: what becomes of its task.
use kromer.Prelude.{ℕ, ℤ, String, Option, none, some}
use kromer.Errors.{DatabaseError}
use kromer.Database.{Wallet, VerifyResponse, Transaction, TransactionCreateData}
use kromer.Database.Externals.{Externals, Decimal}
use kromer.Database.Sound.{
  Reported, handler_rules, fetch_by_address-Sound, verify_address-Sound, create_impl-Sound,
}
use kromer.Database.Transactions.{create}
use kromer.Exec.{Outcome, ok, err, panic, World, Exec, pure, ◌>>=◌}
use kromer.Exec.Sound.{Fine, Sound, Any}
use kromer.Models.Messages.{WebSocketMessageInner}
use kromer.Routes.Gateway.{setup_ws}
use kromer.Routes.Logins.{login_address-Sound, setup_ws-Sound}
use kromer.Routes.Misc.{login_address}
use kromer.Routes.Names.{name_register, name_update_data, name_transfer_route}
use kromer.Routes.Serving.{Request, transfer, register, update, give, log_in, start, message, idle}
use kromer.Routes.Sound.{
  IsSome, broadcast-Sound, transaction_create-Sound, name_register-Sound, name_update_data-Sound,
  name_transfer_route-Sound,
}
use kromer.Routes.Transactions.{transaction_create}
use kromer.WebSockets.{WebSocketServer, WebSocketSessionData, WebSocketSubscriptionType}
use kromer.WebSockets.Handler.{dispatch, pay_with}
use kromer.WebSockets.Routes.{
  catch, caught, perform_logout, subscribe_known, subscribe, unsubscribe_known, unsubscribe,
  get_subscription_level, get_address, myself, get_myself, login_verified, perform_login, announce,
  pay_found, pay_verified, make_transaction,
}
use kromer.WebSockets.Server.{get}

module _ {E A : Type 0} (V : E → Type 0) where
  caught-Fine : (r : Outcome E A) → Fine V r → Fine {E = ⊥} Any (caught r)
  caught-Fine (ok a) h = tt
  caught-Fine (err e) h = tt
  caught-Fine panic h = h

module _ {A : Type 0} where
  -- An error of the database becomes a reply.
  Sound-catch : (m : Exec DatabaseError A) → Sound Reported m → Sound Any (catch m)
  unfolding catch
  Sound-catch m hm = record { at = λ w. let (r, w') = m w in caught-Fine Reported r (hm.at w) }

create-Sound : (d : TransactionCreateData) → Sound Reported (create d)
unfolding create
create-Sound d = search (handler_rules, create_impl-Sound) depth 10

-- A `me` needs the session that it asks about.
abbrev pub Knows : ℕ → WebSocketMessageInner → WebSocketServer → Type 0
Knows uuid WebSocketMessageInner.me s = IsSome (get uuid s.sessions)
Knows uuid _ s = Unit

abbrev pub Known : Request → World → Type 0
Known (message uuid id m) w = Knows uuid m w.server
Known _ w = Unit

module _ (x : Externals) where
  get_address-Sound : (a : String) (f : _) (id : Option ℕ) → Sound Any (get_address x a f id)
  unfolding get_address
  get_address-Sound a f id = search (handler_rules, Sound-catch, fetch_by_address-Sound)

  login_verified-Sound :
      (uuid : ℕ) (key : String) (id : Option ℕ) (r : Option VerifyResponse)
      → Sound Any (login_verified x uuid key id r)
  login_verified-Sound uuid key id none = search handler_rules
  login_verified-Sound uuid key id (some r) = search handler_rules depth 10

  perform_login-Sound :
      (uuid : ℕ) (key : String) (id : Option ℕ) → Sound Any (perform_login x uuid key id)
  unfolding perform_login
  perform_login-Sound uuid key id =
      search (handler_rules, Sound-catch, verify_address-Sound x, login_verified-Sound)

  announce-Sound : (id : Option ℕ) (t : Option Transaction) → Sound Any (announce x id t)
  announce-Sound id none = search handler_rules
  announce-Sound id (some t) = search (handler_rules, broadcast-Sound)

  pay_found-Sound :
      (id : Option ℕ) (to : String) (sender : Wallet) (amount : ℤ) (metadata : Option String)
      (r : Option (Option Wallet))
      → Sound Any (pay_found x id to sender amount metadata r)
  pay_found-Sound id to sender amount metadata none = search handler_rules
  pay_found-Sound id to sender amount metadata (some none) = search handler_rules
  pay_found-Sound id to sender amount metadata (some (some r)) =
      search (handler_rules, Sound-catch, create-Sound, announce-Sound) depth 10

  pay_verified-Sound :
      (id : Option ℕ) (to : String) (amount : ℤ) (metadata : Option String)
      (r : Option VerifyResponse)
      → Sound Any (pay_verified x id to amount metadata r)
  pay_verified-Sound id to amount metadata none = search handler_rules
  pay_verified-Sound id to amount metadata (some r) =
      search (handler_rules, Sound-catch, fetch_by_address-Sound, pay_found-Sound) depth 10

  pay_with-Sound :
      (to : String) (amount : Decimal) (metadata : Option String) (id : Option ℕ)
      (key : Option String)
      → Sound Any (pay_with x to amount metadata id key)
  unfolding make_transaction
  pay_with-Sound to amount metadata id none = search handler_rules
  pay_with-Sound to amount metadata id (some key) =
      search (handler_rules, Sound-catch, verify_address-Sound x, pay_verified-Sound) depth 10

  myself-Fine :
      (id : Option ℕ) (d : Option WebSocketSessionData) (w : World)
      → IsSome d
      → Fine Any (myself x id d w).0
  myself-Fine id none w h = absurd h
  myself-Fine id (some d) w h = (me d).at w
    where
      me : (d : WebSocketSessionData) → Sound Any (myself x id (some d))
      me d = search (handler_rules, Sound-catch, fetch_by_address-Sound) depth 10

  get_myself-Fine :
      (uuid : ℕ) (id : Option ℕ) (w : World)
      → IsSome (get uuid w.server.sessions)
      → Fine Any (get_myself x uuid id w).0
  unfolding get_myself ◌>>=◌ get
  get_myself-Fine uuid id w h = myself-Fine id (get uuid w.server.sessions) w h

  subscribe_known-Sound :
      (uuid : ℕ) (id : Option ℕ) (e : Option WebSocketSubscriptionType)
      → Sound Any (subscribe_known uuid id e)
  subscribe_known-Sound uuid id none = search handler_rules
  subscribe_known-Sound uuid id (some e) = search handler_rules depth 10

  unsubscribe_known-Sound :
      (uuid : ℕ) (id : Option ℕ) (e : Option WebSocketSubscriptionType)
      → Sound Any (unsubscribe_known uuid id e)
  unsubscribe_known-Sound uuid id none = search handler_rules
  unsubscribe_known-Sound uuid id (some e) = search handler_rules depth 10

  dispatch-Fine :
      (uuid : ℕ) (id : Option ℕ) (m : WebSocketMessageInner) (w : World)
      → Knows uuid m w.server
      → Fine Any (dispatch x uuid id m w).0
  unfolding dispatch perform_logout subscribe unsubscribe get_subscription_level pure ◌>>=◌
  dispatch-Fine uuid id (WebSocketMessageInner.address a f) w h = (get_address-Sound a _ id).at w
  dispatch-Fine uuid id (WebSocketMessageInner.login key) w h =
      (perform_login-Sound uuid key id).at w
  dispatch-Fine uuid id WebSocketMessageInner.logout w h = tt
  dispatch-Fine uuid id WebSocketMessageInner.me w h = get_myself-Fine uuid id w h
  dispatch-Fine uuid id (WebSocketMessageInner.subscribe e) w h =
      (subscribe_known-Sound uuid id _).at w
  dispatch-Fine uuid id WebSocketMessageInner.get_subscription_level w h = tt
  dispatch-Fine uuid id WebSocketMessageInner.get_valid_subscription_levels w h = tt
  dispatch-Fine uuid id (WebSocketMessageInner.unsubscribe e) w h =
      (unsubscribe_known-Sound uuid id _).at w
  dispatch-Fine uuid id (WebSocketMessageInner.make_transaction key to amount metadata) w h =
      (pay_with-Sound to amount metadata id _).at w
  dispatch-Fine uuid id _ w h = tt

  -- The request's task ends in an answer or in an error, not in a panic.
  abbrev pub Answered : Request → World → Type 0
  Answered (transfer d) w = Fine Any (transaction_create x d (idle w)).0
  Answered (register n key) w = Fine Any (name_register x n key (idle w)).0
  Answered (update n body) w = Fine Any (name_update_data x n body (idle w)).0
  Answered (give n d) w = Fine Any (name_transfer_route x n d (idle w)).0
  Answered (log_in key) w = Fine Any (login_address x key (idle w)).0
  Answered (start env print draws key computer) w =
      Fine Any (setup_ws x env print draws key computer (idle w)).0
  Answered (message uuid id m) w = Fine Any (dispatch x uuid id m (idle w)).0

-- No client request that may write panics, whatever is in the tables and whichever messages to
-- the database are lost: payments, purchases, updates and transfers of names, `POST /login` and
-- `POST /ws/start` end in an answer or in an error, and so does every message of a client, a
-- `me` if the session that it comes from is there.
pub serve-Answered : (x : Externals) (r : Request) (w : World) → Known r w → Answered x r w
serve-Answered x (transfer d) w h = (transaction_create-Sound x d).at (idle w)
serve-Answered x (register n key) w h = (name_register-Sound x n key).at (idle w)
serve-Answered x (update n body) w h = (name_update_data-Sound x n body).at (idle w)
serve-Answered x (give n d) w h = (name_transfer_route-Sound x n d).at (idle w)
serve-Answered x (log_in key) w h = (login_address-Sound x key).at (idle w)
serve-Answered x (start env print draws key computer) w h =
    (setup_ws-Sound x env print draws key computer).at (idle w)
serve-Answered x (message uuid id m) w h = dispatch-Fine x uuid id m (idle w) h
