-- ===== src/WebSockets/Server.antt =====
-- The methods of `WebSocketServer` in src/websockets/mod.rs, on the server's state alone.
use kromer.Prelude.{ℕ, Option, none, some, List, [], ◌∷◌, Bool, if◌then◌else◌, ◌==◌}
use kromer.WebSockets.{
  WebSocketSubscriptionType, blocks, own_transactions, WebSocketTokenData, WebSocketSessionData,
  WebSocketServer,
}
use kromer.WebSockets.Subscriptions as Subscriptions
use kromer.WebSockets.Subscriptions.{is_guest, is_subscribed_to}

-- `HashMap::get_sync`, `remove_sync`, `insert_sync`, `update_sync` by UUID.
module _ {V : Type 0} where
  unfoldable pub get : ℕ → List (ℕ × V) → Option V
  get k [] = none
  get k ((j, v) ∷ m) = if j == k then some v else get k m

  unfoldable pub without : ℕ → List (ℕ × V) → List (ℕ × V)
  without k [] = []
  without k ((j, v) ∷ m) = let rest = without k m in if j == k then rest else (j, v) ∷ rest

  -- An insertion at a key that is there is refused.
  unfoldable pub insert_new : ℕ → V → List (ℕ × V) → List (ℕ × V)
  unfolding get
  insert_new k v m = elim (get k m) [ none ↦ (k, v) ∷ m | some _ ↦ m ]

  unfoldable pub update_at : ℕ → (V → V) → List (ℕ × V) → List (ℕ × V)
  update_at k f [] = []
  update_at k f ((j, v) ∷ m) = (j, if j == k then f v else v) ∷ update_at k f m

-- `WebSocketServer::new`
unfoldable pub new : WebSocketServer
new = record { sessions = []; pending_tokens = []; outbox = [] }

abbrev pub session_of : WebSocketTokenData → Bool → WebSocketSessionData
session_of d closed = record {
  address = d.address;
  private_key = d.private_key;
  closed = closed;
  subscriptions = own_transactions ∷ blocks ∷ [];
  computer_id = d.computer_id;
}

-- `closed` is the state of the session's peer.
unfoldable pub insert_session : ℕ → Bool → WebSocketTokenData → WebSocketServer → WebSocketServer
unfolding insert_new
insert_session uuid closed d s = record s {
  sessions = insert_new uuid (session_of d closed) s.sessions;
}

unfoldable pub cleanup_session : ℕ → WebSocketServer → WebSocketServer
unfolding without
cleanup_session uuid s = record s { sessions = without uuid s.sessions }

-- The loop of `obtain_token` over the UUIDs that `Uuid::new_v4` draws: the first that is free is
-- taken. `none` is a run of draws that were all taken.
unfoldable pub obtain_token :
    List ℕ → WebSocketTokenData → WebSocketServer → Option (ℕ × WebSocketServer)
unfolding get insert_new
obtain_token [] d s = none
obtain_token (uuid ∷ draws) d s =
    let again = obtain_token draws d s in
    elim (get uuid s.pending_tokens) [
      | none ↦ some (uuid, record s { pending_tokens = insert_new uuid d s.pending_tokens })
      | some _ ↦ again
    ]

-- The task that `obtain_token` spawns, after `TOKEN_EXPIRATION`.
unfoldable pub expire_token : ℕ → WebSocketServer → WebSocketServer
unfolding without
expire_token uuid s = record s { pending_tokens = without uuid s.pending_tokens }

-- `none` is `TokenNotFound`.
unfoldable pub use_token : ℕ → WebSocketServer → Option WebSocketTokenData × WebSocketServer
unfolding get without
use_token uuid s =
    (get uuid s.pending_tokens, record s { pending_tokens = without uuid s.pending_tokens })

unfoldable pub subscribing : WebSocketSubscriptionType → WebSocketSessionData → WebSocketSessionData
unfolding Subscriptions.insert
subscribing e d = record d { subscriptions = Subscriptions.insert e d.subscriptions }

unfoldable pub subscribe_to_event :
    ℕ → WebSocketSubscriptionType → WebSocketServer → WebSocketServer
unfolding update_at
subscribe_to_event uuid e s = record s { sessions = update_at uuid (subscribing e) s.sessions }

unfoldable pub unsubscribing :
    WebSocketSubscriptionType → WebSocketSessionData → WebSocketSessionData
unfolding Subscriptions.remove
unsubscribing e d = record d { subscriptions = Subscriptions.remove e d.subscriptions }

unfoldable pub unsubscribe_from_event :
    ℕ → WebSocketSubscriptionType → WebSocketServer → WebSocketServer
unfolding update_at
unsubscribe_from_event uuid e s = record s {
  sessions = update_at uuid (unsubscribing e) s.sessions;
}

unfoldable pub get_subscription_list : ℕ → WebSocketServer → List WebSocketSubscriptionType
unfolding get
get_subscription_list uuid s = elim (get uuid s.sessions) [ none ↦ [] | some d ↦ d.subscriptions ]

unfoldable pub fetch_session_data : ℕ → WebSocketServer → Option WebSocketSessionData
unfolding get
fetch_session_data uuid s = get uuid s.sessions
