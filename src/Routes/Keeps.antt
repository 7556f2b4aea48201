-- ===== src/Routes/Keeps.antt =====
-- The handlers of src/routes/krist and the predicates of Database/Closed.
use kromer.Prelude.{String, Option, none, some}
use kromer.Database.{Tables, Name}
use kromer.Database.Externals.{Externals}
use kromer.Database.Keeps.{Both, Safe, Keeps-begin, Keeps-commit}
use kromer.Database.Closed.{
  Rows, Moves, Closed, Keeps, keeps_rules, fetch_by_address-Keeps, verify_address-Keeps,
  create_in_transaction-Keeps, fetch_by_name-Keeps, owner-Keeps, create-Keeps,
  update_ownership-Keeps, ctrl_update_metadata-Keeps,
}
use kromer.Database.Names.{NameDataUpdateBody}
use kromer.Database.Transactions.NameData.{TransactionNameData}
use kromer.Exec.{World, Exec, ok, panic, scoped, commit, begin}
use kromer.Exec.Ensures.{After, Ensures, Ensures-scoped}
use kromer.Models.Messages.{WebSocketMessage}
use kromer.WebSockets.{WebSocketServer}
use kromer.WebSockets.Broadcast.{broadcast_event, broadcast_to}
use kromer.Routes.Transactions.{
  TransactionDetails, owner_of_name, wallet_at, transfer_in_transaction, transaction_create,
}
use kromer.Routes.Names.{
  TransferNameRequest, register_in_transaction, refuse_taken, name_register, name_update_data,
  hand_over, name_transfer_route, transfer_ownership,
}

-- However the action ends, both views of the tables are good.
abbrev pub Always : {E A : Type 0} → (Tables → Type 0) → Exec E A → Type 0
Always Good = Ensures (Both Good Good) (λ _. Both Good Good) (Both Good Good)

module _ {C W : Tables → Type 0} where
  broadcast-After :
      (E : Type 0) (o : Option WebSocketServer) (w : World)
      → Both C W w
      → After {E = E} {A = Unit {0}}
          (λ _. Both C W)
          (Safe C)
          (elim o [ none ↦ (panic, w) | some s ↦ (ok tt, record w { server = s }) ])
  broadcast-After E none w h = record { outside = h.outside }
  broadcast-After E (some s) w h = record { outside = h.outside; inside = h.inside }

  pub broadcast_event-Keeps :
      {E : Type 0} (m : WebSocketMessage) → Keeps C W (broadcast_event {E = E} m)
  unfolding broadcast_event
  broadcast_event-Keeps m = record { at = λ w h. broadcast-After _ (broadcast_to m w.server) w h }

pub refuse_taken-Keeps : {C W : Tables → Type 0} (o : Option Name) → Keeps C W (refuse_taken o)
refuse_taken-Keeps none = search keeps_rules
refuse_taken-Keeps (some n) = search keeps_rules

module _ {Good : Tables → Type 0} where
  pub begin-Keeps : Keeps Good Good begin
  begin-Keeps = Keeps-begin

  pub commit-Keeps : Keeps Good Good commit
  commit-Keeps = Keeps-commit

  -- Forgetting the transaction's tables leaves the committed ones.
  pub scoped-Keeps : {E A : Type 0} (m : Exec E A) → Keeps Good Good m → Always Good (scoped m)
  scoped-Keeps m h =
      Ensures-scoped m (λ a w b. record { outside = b.outside; inside = b.outside })
        (λ w s. record { outside = s.outside; inside = s.outside }) h

module _ {Good : Tables → Type 0} (rows : Rows Good) (x : Externals) where
  -- `POST /names/{name}/update`
  pub name_update_data-Keeps :
      (n : String) (body : NameDataUpdateBody) → Keeps Good Good (name_update_data x n body)
  unfolding name_update_data
  name_update_data-Keeps n body = search (keeps_rules, ctrl_update_metadata-Keeps rows x)

module _ {Good : Tables → Type 0} (moves : Moves Good) (x : Externals) where
  module _ (C : Tables → Type 0) where
    owner_of_name-Keeps :
        (d : TransactionNameData) (to : String) → Keeps C Good (owner_of_name d to)
    unfolding owner_of_name
    owner_of_name-Keeps d to =
        search (keeps_rules, fetch_by_name-Keeps moves.rows x C, owner-Keeps moves.rows x C) depth 9

    wallet_at-Keeps : (to : String) → Keeps C Good (wallet_at to)
    unfolding wallet_at
    wallet_at-Keeps to = search (keeps_rules, fetch_by_address-Keeps moves.rows x C)

    pub transfer_in_transaction-Keeps :
        (details : TransactionDetails) (amount : _)
        → Keeps C Good (transfer_in_transaction x details amount)
    unfolding transfer_in_transaction
    transfer_in_transaction-Keeps details amount =
        search
          (
            keeps_rules,
            verify_address-Keeps moves.rows x C,
            owner_of_name-Keeps,
            wallet_at-Keeps,
            create_in_transaction-Keeps moves C,
          )
          depth 16

    pub register_in_transaction-Keeps :
        (n key : String) → Keeps C Good (register_in_transaction x n key)
    unfolding register_in_transaction
    register_in_transaction-Keeps n key =
        search
          (
            keeps_rules,
            fetch_by_name-Keeps moves.rows x C,
            refuse_taken-Keeps,
            verify_address-Keeps moves.rows x C,
            create_in_transaction-Keeps moves C,
            broadcast_event-Keeps,
            create-Keeps moves.rows x C,
          )
          depth 16

  -- `POST /transactions`
  pub transaction_create-Keeps :
      (details : TransactionDetails) → Always Good (transaction_create x details)
  unfolding transaction_create
  transaction_create-Keeps details = scoped-Keeps _ (
      search
        (
          keeps_rules,
          begin-Keeps,
          transfer_in_transaction-Keeps Good,
          commit-Keeps,
          broadcast_event-Keeps,
        )
        depth 16)

  -- `POST /names/{name}`
  pub name_register-Keeps : (n : String) (key : Option String) → Always Good (name_register x n key)
  unfolding name_register
  name_register-Keeps n key =
      scoped-Keeps _ (
        search (keeps_rules, begin-Keeps, register_in_transaction-Keeps Good, commit-Keeps) depth
          16)

module _ {Good : Tables → Type 0} (closed : Closed Good) (x : Externals) where
  hand_over-Keeps : (n : Name) (to : String) → Keeps Good Good (hand_over x n to)
  unfolding hand_over
  hand_over-Keeps n to =
      search
        (
          keeps_rules,
          update_ownership-Keeps closed.owner_written Good,
          create_in_transaction-Keeps closed.moves Good,
          commit-Keeps,
          broadcast_event-Keeps,
        )
        depth 16

  -- `POST /names/{name}/transfer`
  pub name_transfer_route-Keeps :
      (n : String) (details : TransferNameRequest) → Always Good (name_transfer_route x n details)
  unfolding name_transfer_route
  name_transfer_route-Keeps n details = scoped-Keeps _ (
      search
        (
          keeps_rules,
          begin-Keeps,
          verify_address-Keeps closed.moves.rows x Good,
          fetch_by_name-Keeps closed.moves.rows x Good,
          hand_over-Keeps,
        )
        depth 22)

  -- `Name::transfer_ownership`
  pub transfer_ownership-Keeps : (n : Name) (to : String) → Always Good (transfer_ownership x n to)
  unfolding transfer_ownership
  transfer_ownership-Keeps n to = scoped-Keeps _ (
      search
        (
          keeps_rules,
          begin-Keeps,
          update_ownership-Keeps closed.owner_written Good,
          create_in_transaction-Keeps closed.moves Good,
          broadcast_event-Keeps,
          commit-Keeps,
        )
        depth 16)
