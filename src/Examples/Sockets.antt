-- ===== src/Examples/Sockets.antt =====
-- The theorems of the websocket server at concrete states.
use kromer.Prelude.{
  ℕ, pos, ◌≡◌, ◌≢◌, refl, none, some, [], ◌∷◌, true, false, select, ◌++◌, if◌then◌else◌,
}
use kromer.Examples.{session, server, world}
use kromer.Database.{transfer}
use kromer.Models.{TransactionJson}
use kromer.Models.Messages.{WebSocketEvent, new_event}
use kromer.WebSockets.{own_transactions, transactions, names, WebSocketTokenData, WebSocketServer}
use kromer.WebSockets.Broadcast.{wants_event, broadcast_event}
use kromer.WebSockets.Delivery.{
  wants, to_session, copies, reached, found_closed, broadcast_event-reaches, wants-guest,
}
use kromer.WebSockets.Server.{
  get, use_token, obtain_token, subscribe_to_event, unsubscribe_from_event, get_subscription_list,
}
use kromer.WebSockets.Sessions.{
  Redeemable, use_token-once, obtain_token-Redeemable, from_str-into_string,
  contains-get_subscription_list,
}
use kromer.WebSockets.Subscriptions.{
  into_string, from_str, same, contains, is_guest, is_subscribed_to,
}

abbrev ticket : WebSocketTokenData
ticket = record { address = "k001000010"; private_key = some "aaaaaaaaa"; computer_id = none }

-- One token is out already.
abbrev waiting : WebSocketServer
waiting = record server { pending_tokens = (5, ticket) ∷ [] }

abbrev payment : TransactionJson
payment = record {
  id = 1;
  from = some "k001000010";
  to = "klllkklllk";
  value = pos 200;
  time = "";
  name = none;
  metadata = none;
  sent_metaname = none;
  sent_name = none;
  transaction_type = transfer;
}

use_token-once_example :
    ((use_token 5 (use_token 5 waiting).1).0 ≡ none)
    × ((other : ℕ)
        → other ≢ 5
        → (use_token other (use_token 5 waiting).1).0 ≡ (use_token other waiting).0)
use_token-once_example = use_token-once 5 waiting

-- The first draw is taken.
obtain_token-Redeemable_example :
    Redeemable waiting ticket (obtain_token (5 ∷ 6 ∷ []) ticket waiting)
obtain_token-Redeemable_example = obtain_token-Redeemable (5 ∷ 6 ∷ []) ticket waiting

from_str-into_string_example : from_str (into_string own_transactions) ≡ some own_transactions
from_str-into_string_example = from_str-into_string own_transactions

contains-get_subscription_list_example :
    (contains names (get_subscription_list 1 (subscribe_to_event 1 names server)) ≡ true)
    × (contains names (get_subscription_list 1 (unsubscribe_from_event 1 names server)) ≡ false)
    × ((f : _)
        → same names f ≡ false
        → (contains f (get_subscription_list 1 (subscribe_to_event 1 names server))
            ≡ contains f (session "klllkklllk").subscriptions)
          × (contains f (get_subscription_list 1 (unsubscribe_from_event 1 names server))
              ≡ contains f (session "klllkklllk").subscriptions))
unfolding get
contains-get_subscription_list_example =
    contains-get_subscription_list 1 names server (session "klllkklllk") refl

broadcast_event-reaches_example :
    (to_session 1
        (broadcast_event {E = Unit {0}}
          (new_event (WebSocketEvent.transaction payment))
          world).1.server.outbox
      ≡ to_session 1 world.server.outbox
        ++ copies
            (new_event (WebSocketEvent.transaction payment))
            1
            (reached (WebSocketEvent.transaction payment) world.server.sessions))
    × (get 1
          (broadcast_event {E = Unit {0}}
            (new_event (WebSocketEvent.transaction payment))
            world).1.server.sessions
        ≡ (if found_closed 1
              (select (wants (WebSocketEvent.transaction payment)) world.server.sessions)
            then none
            else get 1 world.server.sessions))
broadcast_event-reaches_example = broadcast_event-reaches (Unit {0}) payment world 1

wants-guest_example :
    wants_event (WebSocketEvent.transaction payment) (session "guest")
    ≡ some (is_subscribed_to (session "guest") transactions)
unfolding is_guest
wants-guest_example = wants-guest payment (session "guest") refl
