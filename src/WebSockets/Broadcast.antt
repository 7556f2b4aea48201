-- ===== src/WebSockets/Broadcast.antt =====
-- `broadcast_event` and `broadcast` of src/websockets/mod.rs. The sends of one broadcast complete in any
-- order in the source; here they are made in the order of the list that stands for the session map, which
-- is any order. What a session is sent does not depend on it.
use kromer.Prelude.{
  ℕ, str_eq, Option, none, some, List, [], ◌∷◌, Bool, false, not, ◌&&◌, ◌||◌, if◌then◌else◌, push,
}
use mathlib.Core.Option
use kromer.Models.Messages.{WebSocketMessage, WebSocketMessageInner, WebSocketEvent}
use kromer.WebSockets.{
  transactions, own_transactions, names, own_names, WebSocketSessionData, WebSocketServer,
}
use kromer.WebSockets.Subscriptions.{is_guest, is_subscribed_to}
use kromer.WebSockets.Server.{cleanup_session}
use kromer.Exec.{Exec, ok, panic}

-- Whether a session is sent an event. `none` is the `todo!()` at a block event.
unfoldable pub wants_event : WebSocketEvent → WebSocketSessionData → Option Bool
unfolding is_guest is_subscribed_to
wants_event WebSocketEvent.block d = none
wants_event (WebSocketEvent.transaction t) d = some (
    (not (is_guest d)
      && (str_eq d.address t.to || str_eq d.address (Option.get_or t.from ""))
      && is_subscribed_to d own_transactions)
    || is_subscribed_to d transactions)
wants_event (WebSocketEvent.name n) d = some (
    (not (is_guest d) && str_eq d.address n.owner && is_subscribed_to d own_names)
    || is_subscribed_to d names)

abbrev pub wants_inner : WebSocketMessageInner → WebSocketSessionData → Option Bool
unfolding wants_event
wants_inner (WebSocketMessageInner.event e) d = wants_event e d
wants_inner _ d = some false

-- The pass over the sessions: the futures that are pushed, or the panic of one of them.
unfoldable pub recipients :
    WebSocketMessageInner
    → List (ℕ × WebSocketSessionData)
    → Option (List (ℕ × WebSocketSessionData))
unfolding wants_event
recipients inner [] = some []
recipients inner ((k, d) ∷ m) =
    let rest = recipients inner m in
    elim (wants_inner inner d) [
      | none ↦ none
      | some wanted ↦ elim rest [ none ↦ none | some l ↦ some (if wanted then (k, d) ∷ l else l) ]
    ]

-- One completed send: the message is out, or the session is cleaned up.
abbrev pub deliver : WebSocketMessage → ℕ × WebSocketSessionData → WebSocketServer → WebSocketServer
unfolding cleanup_session
deliver msg (k, d) s =
    if d.closed then cleanup_session k s else record s { outbox = push s.outbox (k, msg) }

unfoldable pub deliver_all :
    WebSocketMessage → List (ℕ × WebSocketSessionData) → WebSocketServer → WebSocketServer
unfolding cleanup_session
deliver_all msg [] s = s
deliver_all msg (r ∷ rs) s = deliver_all msg rs (deliver msg r s)

unfoldable pub broadcast_to : WebSocketMessage → WebSocketServer → Option WebSocketServer
unfolding recipients deliver_all
broadcast_to msg s = Option.map (λ rs. deliver_all msg rs s) (recipients msg.inner s.sessions)

unfoldable pub broadcast_event : {E : Type 0} → WebSocketMessage → Exec E (Unit {0})
broadcast_event msg w = elim (broadcast_to msg w.server) [
  | none ↦ (panic, w)
  | some s ↦ (ok tt, record w { server = s })
]

-- `broadcast`: every session is sent the message.
unfoldable pub broadcast : WebSocketMessage → WebSocketServer → WebSocketServer
unfolding deliver_all
broadcast msg s = deliver_all msg s.sessions s
