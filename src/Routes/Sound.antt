-- ===== src/Routes/Sound.antt =====
-- The handlers that write do not panic: no error of theirs meets the `unreachable!` of the conversion
-- in src/errors/krist.rs, and no event that they send meets the `todo!` of `broadcast_event` in
-- src/websockets/mod.rs.
pub mod Messages
use kromer.Prelude.{ℕ, ℤ, String, Option, none, some, List, [], ◌∷◌, ◌≡◌, refl, Bool, if◌then◌else◌}
use mathlib.Core.Option
use kromer.Database.{Name}
use kromer.Database.Externals.{Externals}
use kromer.Database.Names.{NameDataUpdateBody}
use kromer.Database.Sound.{
  handler_rules, fetch_by_address-Sound, fetch_by_name-Sound, owner-Sound, verify_address-Sound,
  create_in_transaction-Sound, create-Sound, update_ownership-Sound, ctrl_update_metadata-Sound,
}
use kromer.Database.Transactions.NameData.{TransactionNameData}
use kromer.Exec.{Outcome, World, ok, panic}
use kromer.Exec.Sound.{Fine, Sound, Any}
use kromer.Models.{TransactionJson}
use kromer.Models.Messages.{WebSocketMessage, WebSocketMessageInner, WebSocketEvent, new_event}
use kromer.Routes.Names.{
  TransferNameRequest, refuse_taken, register_in_transaction, name_register, name_update_data,
  hand_over, name_transfer_route,
}
use kromer.Routes.Transactions.{
  TransactionDetails, owner_of_name, wallet_at, transfer_in_transaction, transaction_create,
}
use kromer.WebSockets.{WebSocketServer, WebSocketSessionData}
use kromer.WebSockets.Broadcast.{
  broadcast_event, broadcast_to, recipients, deliver_all, wants_event,
}

abbrev pub IsSome : {A : Type 0} → Option A → Type 0
IsSome none = ⊥
IsSome (some a) = Unit

map-IsSome : {A B : Type 0} (f : A → B) (o : Option A) → IsSome o → IsSome (Option.map f o)
map-IsSome f none h = h
map-IsSome f (some a) h = tt

-- Every session can be asked whether it wants a transaction.
recipients-IsSome :
    (t : TransactionJson) (l : List (ℕ × WebSocketSessionData))
    → IsSome (recipients (WebSocketMessageInner.event (WebSocketEvent.transaction t)) l)
unfolding recipients wants_event
recipients-IsSome t [] = tt
recipients-IsSome t ((k, d) ∷ l) = asked _ _ (recipients-IsSome t l)
  where
    asked :
        (b : Bool) (r : Option (List (ℕ × WebSocketSessionData)))
        → IsSome r
        → IsSome {A = List (ℕ × WebSocketSessionData)}
            (elim r as (λ _. Option (List (ℕ × WebSocketSessionData))) [
              | none ↦ none
              | some l ↦ some (if b then (k, d) ∷ l else l)
            ])
    asked b none h = h
    asked b (some l) h = tt

module _ (E : Type 0) where
  sent-Fine :
      (o : Option WebSocketServer) (w : World)
      → IsSome o
      → Fine {E = E} {A = Unit {0}} Any
          (elim o as (λ _. Outcome E (Unit {0}) × World) [
            | none ↦ (panic, w)
            | some s ↦ (ok tt, record w { server = s })
          ]).0
  sent-Fine none w h = h
  sent-Fine (some s) w h = tt

pub broadcast-Sound :
    {E : Type 0} (t : TransactionJson)
    → Sound Any (broadcast_event {E = E} (new_event (WebSocketEvent.transaction t)))
unfolding broadcast_event broadcast_to new_event
broadcast-Sound {E = E} t = record {
  at = λ w.
      sent-Fine E (broadcast_to (new_event (WebSocketEvent.transaction t)) w.server) w
        (map-IsSome _ _ (recipients-IsSome t w.server.sessions));
}

owner_of_name-Sound : (d : TransactionNameData) (to : String) → Sound Any (owner_of_name d to)
unfolding owner_of_name
owner_of_name-Sound d to = search (handler_rules, fetch_by_name-Sound, owner-Sound) depth 9

wallet_at-Sound : (to : String) → Sound Any (wallet_at to)
unfolding wallet_at
wallet_at-Sound to = search (handler_rules, fetch_by_address-Sound)

refuse_taken-Sound : (o : Option Name) → Sound Any (refuse_taken o)
refuse_taken-Sound none = search handler_rules
refuse_taken-Sound (some n) = search handler_rules

module _ (x : Externals) where
  transfer_in_transaction-Sound :
      (details : TransactionDetails) (amount : ℤ)
      → Sound Any (transfer_in_transaction x details amount)
  unfolding transfer_in_transaction
  transfer_in_transaction-Sound details amount =
      search
        (
          handler_rules,
          verify_address-Sound x,
          owner_of_name-Sound,
          wallet_at-Sound,
          create_in_transaction-Sound,
        )
        depth 16

  pub transaction_create-Sound :
      (details : TransactionDetails) → Sound Any (transaction_create x details)
  unfolding transaction_create
  transaction_create-Sound details =
      search (handler_rules, transfer_in_transaction-Sound, broadcast-Sound) depth 16

  register_in_transaction-Sound : (n key : String) → Sound Any (register_in_transaction x n key)
  unfolding register_in_transaction
  register_in_transaction-Sound n key =
      search
        (
          handler_rules,
          fetch_by_name-Sound,
          refuse_taken-Sound,
          verify_address-Sound x,
          create_in_transaction-Sound,
          broadcast-Sound,
          create-Sound,
        )
        depth 16

  pub name_register-Sound : (n : String) (key : Option String) → Sound Any (name_register x n key)
  unfolding name_register
  name_register-Sound n key = search (handler_rules, register_in_transaction-Sound) depth 16

  pub name_update_data-Sound :
      (n : String) (body : NameDataUpdateBody) → Sound Any (name_update_data x n body)
  unfolding name_update_data
  name_update_data-Sound n body = search (handler_rules, ctrl_update_metadata-Sound x)

  hand_over-Sound : (n : Name) (to : String) → Sound Any (hand_over x n to)
  unfolding hand_over
  hand_over-Sound n to =
      search (handler_rules, update_ownership-Sound, create_in_transaction-Sound, broadcast-Sound)
        depth 16

  pub name_transfer_route-Sound :
      (n : String) (d : TransferNameRequest) → Sound Any (name_transfer_route x n d)
  unfolding name_transfer_route
  name_transfer_route-Sound n d =
      search (handler_rules, verify_address-Sound x, fetch_by_name-Sound, hand_over-Sound) depth 20
