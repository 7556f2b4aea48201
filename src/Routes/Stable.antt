-- ===== src/Routes/Stable.antt =====
-- Requests keep every predicate on the websocket server that is stable.

use mathlib.Core.Path.{subst}
use kromer.Prelude.{ℕ, ℤ, String, Option, none, some, ◌≡◌, refl, ap, List, [], ◌∷◌}
use kromer.Database.{Name}
use kromer.Database.Externals.{Externals}
use kromer.Database.Statements.{Executor, pool, tx}
use kromer.Database.Transactions.{create_in_transaction}
use kromer.Database.Transactions.NameData.{TransactionNameData}
use kromer.Database.Names.{
  fetch_by_name, owner, create, update_ownership_in_transaction, update_metadata,
  ctrl_update_metadata, NameDataUpdateBody,
}
use kromer.Exec.{World, Exec}
use kromer.Exec.Ensures.{After, Ensures-throw_if}
use kromer.Routes.Gateway.{setup_ws, issue_token, token_data, url_of, token_of}
use kromer.Routes.Misc.{Environment, login_address}
use kromer.Routes.Names.{
  refuse_taken, register_in_transaction, name_register, name_update_data, hand_over,
  name_transfer_route, TransferNameRequest,
}
use kromer.Routes.Serving.{
  Request, transfer, register, update, give, log_in, start, message, serve, leaves,
}
use kromer.Routes.Transactions.{
  TransactionDetails, owner_of_name, wallet_at, transfer_in_transaction, transaction_create,
}
use kromer.WebSockets.{WebSocketServer, WebSocketTokenData}
use kromer.WebSockets.Server.{obtain_token, get, insert_new}
use kromer.WebSockets.Stable.{Stable, Serving, Leaves, server_rules}
use kromer.WebSockets.Stable.Messages.{
  broadcast_event-Leaves, fetch_by_address-Leaves, verify_address-Leaves, create_impl-Leaves,
  dispatch-Leaves,
}

module _ {S : WebSocketServer → Type 0} (stable : Stable S) (x : Externals) where
  fetch_by_name-Leaves : (ex : Executor) (n : String) → Leaves S (fetch_by_name ex n)
  unfolding fetch_by_name
  fetch_by_name-Leaves ex n = search server_rules

  owner-Leaves : (n : Name) → Leaves S (owner n)
  unfolding owner
  owner-Leaves n = search (server_rules, fetch_by_address-Leaves stable x)

  owner_of_name-Leaves : (d : TransactionNameData) (to : String) → Leaves S (owner_of_name d to)
  unfolding owner_of_name
  owner_of_name-Leaves d to = search (server_rules, fetch_by_name-Leaves, owner-Leaves) depth 9

  wallet_at-Leaves : (to : String) → Leaves S (wallet_at to)
  unfolding wallet_at
  wallet_at-Leaves to = search (server_rules, fetch_by_address-Leaves stable x)

  transfer_in_transaction-Leaves :
      (details : TransactionDetails) (amount : ℤ)
      → Leaves S (transfer_in_transaction x details amount)
  unfolding transfer_in_transaction create_in_transaction
  transfer_in_transaction-Leaves details amount =
      search
        (
          server_rules,
          Ensures-throw_if,
          verify_address-Leaves stable x,
          owner_of_name-Leaves,
          wallet_at-Leaves,
          create_impl-Leaves stable x,
        )
        depth 16

  transaction_create-Leaves :
      (details : TransactionDetails) → Leaves S (transaction_create x details)
  unfolding transaction_create
  transaction_create-Leaves details =
      search
        (
          server_rules,
          Ensures-throw_if,
          transfer_in_transaction-Leaves,
          broadcast_event-Leaves stable,
        )
        depth 16

  refuse_taken-Leaves : (o : Option Name) → Leaves S (refuse_taken o)
  refuse_taken-Leaves none = search server_rules
  refuse_taken-Leaves (some n) = search server_rules

  create-Leaves : (n o : String) → Leaves S (create tx n o)
  unfolding create
  create-Leaves n o = search server_rules

  register_in_transaction-Leaves : (n key : String) → Leaves S (register_in_transaction x n key)
  unfolding register_in_transaction create_in_transaction
  register_in_transaction-Leaves n key =
      search
        (
          server_rules,
          Ensures-throw_if,
          fetch_by_name-Leaves,
          refuse_taken-Leaves,
          verify_address-Leaves stable x,
          create_impl-Leaves stable x,
          broadcast_event-Leaves stable,
          create-Leaves,
        )
        depth 16

  name_register-Leaves : (n : String) (key : Option String) → Leaves S (name_register x n key)
  unfolding name_register
  name_register-Leaves n key =
      search (server_rules, Ensures-throw_if, register_in_transaction-Leaves) depth 16

  update_metadata-Leaves : (n m : String) → Leaves S (update_metadata pool n m)
  unfolding update_metadata
  update_metadata-Leaves n m = search server_rules

  ctrl_update_metadata-Leaves :
      (n : String) (body : NameDataUpdateBody) → Leaves S (ctrl_update_metadata x n body)
  unfolding ctrl_update_metadata
  ctrl_update_metadata-Leaves n body =
      search
        (
          server_rules,
          Ensures-throw_if,
          verify_address-Leaves stable x,
          fetch_by_name-Leaves,
          update_metadata-Leaves,
        )
        depth 16

  name_update_data-Leaves :
      (n : String) (body : NameDataUpdateBody) → Leaves S (name_update_data x n body)
  unfolding name_update_data
  name_update_data-Leaves n body = search (server_rules, ctrl_update_metadata-Leaves)

  update_ownership-Leaves : (n : Name) (o : String) → Leaves S (update_ownership_in_transaction n o)
  unfolding update_ownership_in_transaction
  update_ownership-Leaves n o = search server_rules

  hand_over-Leaves : (n : Name) (to : String) → Leaves S (hand_over x n to)
  unfolding hand_over create_in_transaction
  hand_over-Leaves n to =
      search
        (
          server_rules,
          update_ownership-Leaves,
          create_impl-Leaves stable x,
          broadcast_event-Leaves stable,
        )
        depth 16

  name_transfer_route-Leaves :
      (n : String) (d : TransferNameRequest) → Leaves S (name_transfer_route x n d)
  unfolding name_transfer_route
  name_transfer_route-Leaves n d =
      search
        (
          server_rules,
          Ensures-throw_if,
          verify_address-Leaves stable x,
          fetch_by_name-Leaves,
          hand_over-Leaves,
        )
        depth 18

  login_address-Leaves : (key : String) → Leaves S (login_address x key)
  unfolding login_address
  login_address-Leaves key = search (server_rules, verify_address-Leaves stable x)

  abbrev Obtains : WebSocketServer → ℕ → Option (ℕ × WebSocketServer) → Type 0
  Obtains s uuid o = o ≡ some (uuid, s)

  obtained :
      (draws : List ℕ) (d : WebSocketTokenData) (s s' : WebSocketServer) (uuid : ℕ)
      → S s
      → Obtains s' uuid (obtain_token draws d s)
      → S s'
  unfolding obtain_token
  obtained [] d s s' uuid h e = absurd (cc)
  obtained (k ∷ draws) d s s' uuid h e =
      drawn (obtained draws d s s' uuid h) (get k s.pending_tokens) e
    where
      drawn :
          (Obtains s' uuid (obtain_token draws d s) → S s')
          → (o : Option WebSocketTokenData)
          → Obtains s' uuid (elim o [
            | none ↦ some (k, record s { pending_tokens = insert_new k d s.pending_tokens })
            | some _ ↦ obtain_token draws d s
          ])
          → S s'
      drawn again none e =
          subst S (ap (λ (o : Option (ℕ × WebSocketServer)). elim o [ none ↦ s | some p ↦ p.1 ]) e)
            (stable.pended _ s h)
      drawn again (some _) e = again e

  issue_token-Leaves : (draws : List ℕ) (d : WebSocketTokenData) → Leaves S (issue_token draws d)
  unfolding issue_token
  issue_token-Leaves draws d = record {
    at = λ w h. issued_one (obtain_token draws d w.server) w h (obtained draws d w.server);
  }
    where
      issued_one :
          (o : Option (ℕ × WebSocketServer)) (w : World)
          → Serving S w
          → ((s' : WebSocketServer) (uuid : ℕ) → S w.server → Obtains s' uuid o → S s')
          → After (λ _. Serving S) (Serving S) (token_of o w)
      issued_one none w h k = h
      issued_one (some (uuid, s)) w h k = record { holds = k s uuid h.holds refl }

  token_data-Leaves :
      (key : Option String) (computer : Option ℤ) → Leaves S (token_data x key computer)
  token_data-Leaves none computer = search server_rules
  token_data-Leaves (some key) computer = search (server_rules, verify_address-Leaves stable x)

  url_of-Leaves :
      (env : Environment) (print : ℕ → String) (uuid : Option ℕ)
      → Leaves S (url_of x env print uuid)
  url_of-Leaves env print none = search server_rules
  url_of-Leaves env print (some uuid) = search server_rules

  setup_ws-Leaves :
      (env : Environment) (print : ℕ → String) (draws : List ℕ) (key : Option String)
      (computer : Option ℤ)
      → Leaves S (setup_ws x env print draws key computer)
  unfolding setup_ws
  setup_ws-Leaves env print draws key computer =
      search (server_rules, token_data-Leaves, issue_token-Leaves, url_of-Leaves)

  served :
      {E A : Type 0} (m : Exec E A) (w : World)
      → Leaves S m
      → S w.server
      → S (m (record w { working = none })).1.server
  served m w hm h =
      (leaves (Serving S) (Serving S) (Serving S) m hm (λ w s. s) (record w { working = none })
        (record { holds = h })).holds

  pub serve-Stable : (r : Request) (w : World) → S w.server → S (serve x r w).server
  unfolding serve
  serve-Stable (transfer d) w h = served _ w (transaction_create-Leaves d) h
  serve-Stable (register n key) w h = served _ w (name_register-Leaves n key) h
  serve-Stable (update n body) w h = served _ w (name_update_data-Leaves n body) h
  serve-Stable (give n d) w h = served _ w (name_transfer_route-Leaves n d) h
  serve-Stable (log_in key) w h = served _ w (login_address-Leaves key) h
  serve-Stable (start env print draws key computer) w h =
      served _ w (setup_ws-Leaves env print draws key computer) h
  serve-Stable (message uuid id m) w h = served _ w (dispatch-Leaves stable x uuid id m) h
