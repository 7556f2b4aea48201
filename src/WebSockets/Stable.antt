-- ===== src/WebSockets/Stable.antt =====
-- Predicates on the websocket server that a client's message keeps, whatever it asks for.
pub mod Messages
use kromer.Prelude.{ℕ, ℤ, String, Option, none, some, List, [], ◌∷◌, Bool, true, false}
use kromer.Errors.{SqlxError}
use kromer.Database.{Tables, Serials, Wallet, VerifyResponse, TransactionCreateData}
use kromer.Database.Externals.{Externals, Decimal}
use kromer.Database.Statements.{Executor, pool, tx, settle, seen, Written, query, update, insert}
use kromer.Database.Transactions.{create, create_impl}
use kromer.Database.Wallets.{
  fetch_by_address, verify_address, acquire, or_create, create_wallet, update_balance,
}
use kromer.Exec.{
  Outcome, ok, err, panic, World, Exec, answer, trip, begin, commit, gets, modify_server, lift,
  scoped,
}
use kromer.Exec.Ensures.{
  After, Ensures, Ensures-replied, Keeps-pure, Ensures-throw, Ensures-ok_or, Ensures-if, Keeps-bind,
  Ensures-map_err, Ensures-scoped,
}
use kromer.Models.Messages.{WebSocketMessage, WebSocketMessageInner}
use kromer.WebSockets.{
  WebSocketServer, WebSocketSessionData, WebSocketSubscriptionType, WebSocketTokenData,
}
use kromer.WebSockets.Broadcast.{broadcast_event, broadcast_to, deliver, deliver_all, recipients}
use kromer.WebSockets.Handler.{dispatch, pay_with}
use kromer.WebSockets.Routes.{
  catch, caught, update_session, perform_logout, subscribe_known, subscribe, unsubscribe_known,
  unsubscribe, get_subscription_level, get_address, myself, get_myself, login_verified,
  perform_login, announce, pay_found, pay_verified, make_transaction,
}
use kromer.WebSockets.Server.{
  update_at, cleanup_session, subscribe_to_event, unsubscribe_from_event,
}

-- Kept by a change of a session, by the removal of one, by a message that is sent, and by a token.
pub record Stable (S : WebSocketServer → Type 0) : Type 0 where
  pub updated :
      (uuid : ℕ) (f : WebSocketSessionData → WebSocketSessionData) (s : WebSocketServer)
      → S s
      → S (update_session f uuid s)
  pub cleaned : (uuid : ℕ) (s : WebSocketServer) → S s → S (cleanup_session uuid s)
  pub sent :
      (l : List (ℕ × WebSocketMessage)) (s : WebSocketServer) → S s → S (record s { outbox = l })
  pub pended :
      (l : List (ℕ × WebSocketTokenData)) (s : WebSocketServer)
      → S s
      → S (record s { pending_tokens = l })

pub record Serving (S : WebSocketServer → Type 0) (w : World) : Type 0 where
  pub holds : S w.server

abbrev pub Leaves : {E A : Type 0} → (WebSocketServer → Type 0) → Exec E A → Type 0
Leaves S = Ensures (Serving S) (λ _. Serving S) (Serving S)

module _ {S : WebSocketServer → Type 0} where
  pub same_server : (w : World) → Serving S w → Serving S w
  same_server w h = h

  answer-After :
      (faults : List Bool) (w : World)
      → Serving S w
      → After (λ _. Serving S) (Serving S) (answer faults w)
  answer-After [] w h = h
  answer-After (true ∷ rest) w h = record { holds = h.holds }
  answer-After (false ∷ rest) w h = record { holds = h.holds }

  pub Leaves-trip : Leaves S trip
  unfolding trip
  Leaves-trip = record { at = λ w h. answer-After w.faults w h }

  pub Leaves-gets : {E A : Type 0} (f : World → A) → Leaves S (gets {E = E} f)
  unfolding gets
  Leaves-gets f = record { at = λ w h. h }

  pub Leaves-begin : Leaves S begin
  unfolding begin
  Leaves-begin = Keeps-bind _ _ Leaves-trip λ _. record { at = λ w h. record { holds = h.holds } }

  pub Leaves-commit : Leaves S commit
  unfolding commit
  Leaves-commit =
      Keeps-bind _ _ Leaves-trip λ _.
        Ensures-replied _ (record { at = λ w h. record { holds = h.holds } }) (λ _. Leaves-trip)

module _ {A : Type 0} {S : WebSocketServer → Type 0} where
  read-After :
      (r : Outcome SqlxError A) (w : World)
      → Serving S w
      → After (λ _. Serving S) (Serving S) (r, w)
  read-After (ok a) w h = h
  read-After (err e) w h = h
  read-After panic w h = h

  pub Leaves-query :
      (ex : Executor) (body : Tables → Outcome SqlxError A) → Leaves S (query ex body)
  unfolding query
  Leaves-query ex body =
      Keeps-bind _ _ Leaves-trip λ _. record { at = λ w h. read-After (body (seen ex w)) w h }

  settle-After :
      (ex : Executor) (w : World) (r : Written A)
      → Serving S w
      → After (λ _. Serving S) (Serving S) (settle ex r w)
  settle-After pool w (ok (a, t)) h = record { holds = h.holds }
  settle-After tx w (ok (a, t)) h = record { holds = h.holds }
  settle-After _ w (err e) h = h
  settle-After _ w panic h = h

  pub Leaves-update : (ex : Executor) (body : ℕ → Tables → Written A) → Leaves S (update ex body)
  unfolding update
  Leaves-update ex body = Keeps-bind _ _ Leaves-trip λ _.
      Ensures-replied _ (record { at = λ w h. settle-After ex w (body w.now (seen ex w)) h })
        (λ _. Leaves-trip)

  pub Leaves-insert :
      (ex : Executor) (draw : Serials → Serials) (body : Serials → ℕ → Tables → Written A)
      → Leaves S (insert ex draw body)
  unfolding insert
  Leaves-insert ex draw body = Keeps-bind _ _ Leaves-trip λ _.
      Ensures-replied _
        (record {
          at = λ w h.
              settle-After ex (record w { serials = draw w.serials })
                (body w.serials w.now (seen ex w)) (record { holds = h.holds });
        })
        (λ _. Leaves-trip)

module _ {E A : Type 0} (S : WebSocketServer → Type 0) where
  caught-After :
      (r : Outcome E A) (w : World)
      → After (λ _. Serving S) (Serving S) (r, w)
      → After (λ _. Serving S) (Serving S) (caught r, w)
  caught-After (ok a) w h = h
  caught-After (err e) w h = h
  caught-After panic w h = h

module _ {E A : Type 0} {S : WebSocketServer → Type 0} where
  pub Leaves-catch : (m : Exec E A) → Leaves S m → Leaves S (catch m)
  unfolding catch
  Leaves-catch m hm = record { at = λ w h. let (r, w') = m w in caught-After S r w' (hm.at w h) }

  pub Leaves-scoped : (m : Exec E A) → Leaves S m → Leaves S (scoped m)
  Leaves-scoped m hm =
      Ensures-scoped m (λ a w h. record { holds = h.holds }) (λ w h. record { holds = h.holds }) hm

pub ruleset server_rules = (
  same_server, Keeps-pure, Ensures-throw, Ensures-ok_or, Ensures-if, Keeps-bind, Ensures-map_err,
  Leaves-trip, Leaves-query, Leaves-update, Leaves-insert, Leaves-catch, Leaves-gets, Leaves-begin,
  Leaves-commit, Leaves-scoped,
)
