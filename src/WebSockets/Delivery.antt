-- ===== src/WebSockets/Delivery.antt =====
-- What a broadcast does to the server: who gets the message, and which sessions are removed.
use kromer.Prelude.{
  ℕ, ◌==◌, ◌≡◌, refl, ap, sym, ◌∙◌, none, some, List, [], ◌∷◌, ◌++◌, push, map, select, Bool, true,
  false, ◌&&◌, ◌||◌, not, arith, if◌then◌else◌, Bool-cases, inl, inr,
}
use kromer.Models.{TransactionJson}
use kromer.Models.Messages.{WebSocketMessage, WebSocketMessageInner, WebSocketEvent, new_event}
use kromer.WebSockets.{WebSocketSessionData, WebSocketServer, transactions}
use kromer.WebSockets.Subscriptions.{is_guest, is_subscribed_to}
use kromer.WebSockets.Broadcast.{
  wants_event, recipients, deliver, deliver_all, broadcast_to, broadcast_event,
}
use kromer.WebSockets.Server.{get, without, cleanup_session}
use kromer.Exec.{ok, panic, World}

-- Whether the event for a transaction goes to a session.
abbrev pub wants : WebSocketEvent → ℕ × WebSocketSessionData → Bool
wants e (k, d) = elim (wants_event e d) [ none ↦ false | some b ↦ b ]

module _ (t : TransactionJson) where
  -- A transaction event has recipients: those that want it, in order.
  pub recipients-transaction :
      (m : List (ℕ × WebSocketSessionData))
      → recipients (WebSocketMessageInner.event (WebSocketEvent.transaction t)) m
        ≡ some (select (wants (WebSocketEvent.transaction t)) m)
  unfolding recipients wants_event
  recipients-transaction [] = refl
  recipients-transaction ((k, d) ∷ m) = rw (recipients-transaction m) refl

  pub broadcast_to-transaction :
      (s : WebSocketServer)
      → broadcast_to (new_event (WebSocketEvent.transaction t)) s
        ≡ some (
            deliver_all
              (new_event (WebSocketEvent.transaction t))
              (select (wants (WebSocketEvent.transaction t)) s.sessions)
              s)
  unfolding broadcast_to new_event
  broadcast_to-transaction s = rw (recipients-transaction s.sessions) refl

  -- Announcing a transaction changes the websocket server and nothing else, and never fails.
  pub broadcast_event-transaction :
      {E : Type 0} (w : World)
      → broadcast_event {E = E} (new_event (WebSocketEvent.transaction t)) w ≡ (
        ok tt,
        record w {
          server =
              deliver_all
                (new_event (WebSocketEvent.transaction t))
                (select (wants (WebSocketEvent.transaction t)) w.server.sessions)
                w.server;
        },
      )
  unfolding broadcast_event
  broadcast_event-transaction w =
      ap (λ o. elim o [ none ↦ (panic, w) | some s ↦ (ok tt, record w { server = s }) ])
        (broadcast_to-transaction w.server)

abbrev open_to : ℕ × WebSocketSessionData → Bool
open_to (k, d) = not d.closed

abbrev envelope : WebSocketMessage → ℕ × WebSocketSessionData → ℕ × WebSocketMessage
envelope msg (k, d) = (k, msg)

append_nil : {A : Type 0} (l : List A) → l ++ [] ≡ l
append_nil [] = refl
append_nil (a ∷ l) = ap (λ r. a ∷ r) (append_nil l)

push-append : {A : Type 0} (l m : List A) (a : A) → push l a ++ m ≡ l ++ a ∷ m
push-append [] m a = refl
push-append (b ∷ l) m a = ap (λ r. b ∷ r) (push-append l m a)

-- Each of the recipients whose peer is there is sent the message, once and in order, and nobody else.
deliver_all-outbox :
    (msg : WebSocketMessage) (rs : List (ℕ × WebSocketSessionData)) (s : WebSocketServer)
    → (deliver_all msg rs s).outbox ≡ s.outbox ++ map (envelope msg) (select open_to rs)
unfolding deliver_all cleanup_session
deliver_all-outbox msg [] s = sym (append_nil s.outbox)
deliver_all-outbox msg ((k, d) ∷ rs) s = elim (Bool-cases d.closed) [
  | inl gone ↦ rw gone (deliver_all-outbox msg rs (cleanup_session k s))
  | inr here ↦ rw here (
      deliver_all-outbox msg rs (record s { outbox = push s.outbox (k, msg) })
      ∙ push-append s.outbox (map (envelope msg) (select open_to rs)) (k, msg))
]

get-without_same : (k : ℕ) (m : List (ℕ × WebSocketSessionData)) → get k (without k m) ≡ none
unfolding get without
get-without_same k [] = refl
get-without_same k ((j, v) ∷ m) = ground (arith, get-without_same k m)

get-without_cases :
    (j k : ℕ) (m : List (ℕ × WebSocketSessionData))
    → get j (without k m) ≡ (if j == k then none else get j m)
unfolding get without
get-without_cases j k [] = ground arith
get-without_cases j k ((i, v) ∷ m) = ground (arith, get-without_cases j k m)

-- Whether a closed session with this number is among the recipients.
abbrev pub found_closed : ℕ → List (ℕ × WebSocketSessionData) → Bool
found_closed j [] = false
found_closed j ((k, d) ∷ rs) = (d.closed && j == k) || found_closed j rs

-- The sessions that turn out to be closed are removed, and no others.
deliver_all-sessions :
    (j : ℕ) (msg : WebSocketMessage) (rs : List (ℕ × WebSocketSessionData)) (s : WebSocketServer)
    → get j (deliver_all msg rs s).sessions ≡ (if found_closed j rs then none else get j s.sessions)
unfolding deliver_all cleanup_session
deliver_all-sessions j msg [] s = refl
deliver_all-sessions j msg ((k, d) ∷ rs) s =
    ground (
      arith,
      deliver_all-sessions j msg rs (deliver msg (k, d) s),
      get-without_cases j k s.sessions,
    )

-- The messages of an outbox that went to a session.
abbrev pub to_session : ℕ → List (ℕ × WebSocketMessage) → List (ℕ × WebSocketMessage)
to_session j l = select (λ (m : ℕ × WebSocketMessage). j == m.0) l

-- The sessions that a message should reach: those that want it and whose peers are there.
abbrev pub reached :
    WebSocketEvent → List (ℕ × WebSocketSessionData) → List (ℕ × WebSocketSessionData)
reached e [] = []
reached e ((k, d) ∷ l) =
    if wants e (k, d) && not d.closed then (k, d) ∷ reached e l else reached e l

to_session-append :
    (j : ℕ) (l m : List (ℕ × WebSocketMessage))
    → to_session j (l ++ m) ≡ to_session j l ++ to_session j m
to_session-append j [] m = refl
to_session-append j ((k, a) ∷ l) m = elim (Bool-cases (j == k)) [
  | inl here ↦ rw here (ap (λ r. (k, a) ∷ r) (to_session-append j l m))
  | inr there ↦ rw there (to_session-append j l m)
]

-- One copy for each session of a list with this identifier.
abbrev pub copies :
    WebSocketMessage → ℕ → List (ℕ × WebSocketSessionData) → List (ℕ × WebSocketMessage)
copies msg j [] = []
copies msg j ((k, d) ∷ l) = if j == k then (j, msg) ∷ copies msg j l else copies msg j l

to_session-envelopes :
    (msg : WebSocketMessage) (j : ℕ) (e : WebSocketEvent) (l : List (ℕ × WebSocketSessionData))
    → to_session j (map (envelope msg) (select open_to (select (wants e) l)))
      ≡ copies msg j (reached e l)
to_session-envelopes msg j e [] = refl
to_session-envelopes msg j e ((k, d) ∷ l) = elim (Bool-cases (wants e (k, d))) [
  | inr unwanted ↦ rw unwanted (to_session-envelopes msg j e l)
  | inl wanted ↦ elim (Bool-cases d.closed) [
    | inl gone ↦ rw (wanted, gone) (to_session-envelopes msg j e l)
    | inr here ↦ elim (Bool-cases (j == k)) [
      | inl mine ↦
          let same : j ≡ k = ground (arith, mine) in
          rw (wanted, here, mine)
            (ap
                (λ i.
                  (i, msg)
                  ∷ to_session j (map (envelope msg) (select open_to (select (wants e) l))))
                (sym same)
              ∙ ap (λ r. (j, msg) ∷ r) (to_session-envelopes msg j e l))
      | inr other ↦ rw (wanted, here, other) (to_session-envelopes msg j e l)
    ]
  ]
]

-- Of an announced transaction every session that wants it and whose peer is there is sent one copy, after
-- what it was sent before, and no other session is sent anything; among those that want it, the closed
-- ones are removed, and no others.
pub broadcast_event-reaches :
    (E : Type 0) (t : TransactionJson) (w : World) (j : ℕ)
    → (to_session j
          (broadcast_event {E = E} (new_event (WebSocketEvent.transaction t)) w).1.server.outbox
        ≡ to_session j w.server.outbox
          ++ copies
              (new_event (WebSocketEvent.transaction t))
              j
              (reached (WebSocketEvent.transaction t) w.server.sessions))
      × (get j
            (broadcast_event {E = E} (new_event (WebSocketEvent.transaction t)) w).1.server.sessions
          ≡ (if found_closed j (select (wants (WebSocketEvent.transaction t)) w.server.sessions)
              then none
              else get j w.server.sessions))
broadcast_event-reaches E t w j = rw (broadcast_event-transaction t {E = E} w) (
  ap (to_session j) (
        deliver_all-outbox _ (select (wants (WebSocketEvent.transaction t)) w.server.sessions)
          w.server)
      ∙ to_session-append j w.server.outbox _
      ∙ ap (λ r. to_session j w.server.outbox ++ r)
          (to_session-envelopes _ j (WebSocketEvent.transaction t) w.server.sessions),
  deliver_all-sessions j _ (select (wants (WebSocketEvent.transaction t)) w.server.sessions)
      w.server,
)

-- A guest is sent a transaction if and only if it subscribed to all transactions.
pub wants-guest :
    (t : TransactionJson) (d : WebSocketSessionData)
    → is_guest d ≡ true
    → wants_event (WebSocketEvent.transaction t) d ≡ some (is_subscribed_to d transactions)
unfolding wants_event
wants-guest t d h = rw h refl
